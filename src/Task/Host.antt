-- ===== src/Task/Host.antt =====
-- What the task manager asks of Node's path and fs modules and of its configuration; this code is
-- not in the repository, so it is a parameter of the model.
use ender.Prelude.{Bool, Option, Text}

pub record Host : Type 0 where
  pub workdir : Text
  pub workspace_base : Option Text
  pub self_root : Text
  pub auto_restart : Bool  -- config.autoRestartInterruptedThreads
  pub default_profile : Option Text  -- for a start: the manager's, else the one of the configuration
  pub manager_profile : Option Text  -- llmProfileManager.defaultProfileId
  pub resolve : Text → Text  -- path.resolve of one path
  pub is_absolute : Text → Bool
  pub relative : Text → Text → Text
  pub root_of : Text → Text  -- path.parse(p).root
  pub exists : Text → Bool
  pub is_directory : Text → Bool
  pub owns_workspace : Text → Bool  -- projectManager.ownsWorkspace
