-- ===== src/Tests/Files.antt =====
-- Tests of the repository of task records and of the registered servers.
use ender.Prelude.{
  false, not, ◌&&◌, [], ◌∷◌, List, none, some, Text, lit, is_empty, text_eq, lookup, Map, ◌≡◌, refl,
}
use ender.Repository.{Request, save, delete, Ending, completed, fails, torn, run_queue}
use ender.Repository.Refinement.{records_in, apply_all, run_queue-apply_all}
use ender.Servers
use ender.Servers.{Server, Shown, shown, rotate, upsert}
use ender.Servers.Owners.{Call, upserts, rotates, deletes, after_all, other_users_change_nothing}
use ender.Servers.Tokens.{accepts, rotate-delete-accepts}

abbrev requests : List (Request × List Ending)
requests =
    (save (lit "a") (lit "1"), completed ∷ completed ∷ completed ∷ [])
    ∷ (save (lit "a") (lit "22"), completed ∷ torn (lit "2") ∷ [])
    ∷ (delete (lit "b"), completed ∷ fails ∷ [])
    ∷ []

run_queue-apply_all_example :
    records_in (run_queue requests []) (lit "a") ≡ apply_all requests (records_in []) (lit "a")
run_queue-apply_all_example = run_queue-apply_all requests [] (lit "a")

abbrev backend : Server Text
backend = record {
  id = lit "s1";
  user_id = lit "ann";
  created_at = lit "t0";
  updated_at = lit "t0";
  deleted_at = none;
  token_hash = lit "h1";
  details = lit "home";
}

abbrev backends : Map (Server Text)
backends = (lit "s1", backend) ∷ []

abbrev foreign_calls : List (Call Text)
foreign_calls =
    upserts (lit "bob") (lit "t1") (lit "s1") (lit "k") (lit "mine")
    ∷ rotates (lit "bob") (lit "t2") (lit "s1") (lit "k")
    ∷ deletes (lit "bob") (lit "t3") (lit "s1")
    ∷ []

other_users_change_nothing_example :
    lookup (lit "s1") (after_all (λ t. t) foreign_calls backends) ≡ some backend
other_users_change_nothing_example =
    other_users_change_nothing (λ t. t) foreign_calls (lit "s1") backend backends
      (unfold text_eq lit in ((refl, (refl, (refl, tt))))) (unfold lookup text_eq lit in refl)

rotate-delete-accepts_example :
    (accepts
        (λ t. t)
        (lit "s1")
        (lit "k")
        (rotate (λ t. t) (lit "t1") (lit "ann") (lit "s1") (lit "k") backends).0
      ≡ (not (is_empty (lit "k")) && text_eq (lit "k") (lit "k")))
    × (accepts
          (λ t. t)
          (lit "s1")
          (lit "k")
          (Servers.delete (lit "t1") (lit "ann") (lit "s1") backends).0
        ≡ false)
rotate-delete-accepts_example =
    rotate-delete-accepts (λ t. t) (lit "t1") (lit "ann") (lit "s1") (lit "k") backend backends
      (lit "k") (unfold lookup text_eq lit in refl) (unfold text_eq lit in refl)
