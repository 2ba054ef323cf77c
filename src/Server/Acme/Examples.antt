-- ===== src/Server/Acme/Examples.antt =====
-- An order for two domains: the theorems at concrete inputs.
use penguin_rs.Base.{ℕ, ◌≡◌, refl, List, [], ◌∷◌, ◌++◌, none, some, ok, err, arith}
use penguin_rs.Mux.Timing.{new_backoff, advance}
use penguin_rs.Server.Service.{Text}
use penguin_rs.Server.Acme.Helper.{
  Authorization, Turn, pending, http01, ready, other_order, instant_acme, order_invalid, Event,
  called, create, set_ready, process_challenges,
}
use penguin_rs.Server.Acme.Helper.Cleanup.{
  created, removed, IsSettled, process_challenges-IsSettled,
}
use penguin_rs.Server.Acme.{finished, Answers, wait_until_ready, order_backoff, issue, is_ready}
use penguin_rs.Server.Acme.Waiting.{
  HasEnded, others, wait_until_ready_ends, wait_until_ready_too_late,
}
use penguin_rs.Server.Acme.Issuing.{issue_cleans_up, issue_leaves_files}

abbrev works : Turn
works = record { spawn = ok tt; wait = ok 0; set_challenge_ready = ok tt }

abbrev authorization_of : Text → Authorization
authorization_of key = record {
  status = pending;
  challenges = record { kind = http01; url = b'u' ∷ []; key_auth = key } ∷ [];
}

abbrev two : List (Authorization × Turn)
two = (authorization_of (b'a' ∷ []), works) ∷ (authorization_of (b'b' ∷ []), works) ∷ []

process_challenges-IsSettled_example : IsSettled [] (process_challenges [] two)
process_challenges-IsSettled_example = process_challenges-IsSettled [] two

abbrev keys : List Text
keys = (b'a' ∷ []) ∷ (b'b' ∷ []) ∷ []

abbrev not_ready : List ℕ
not_ready = 0 ∷ 0 ∷ 0 ∷ 0 ∷ 0 ∷ 0 ∷ 0 ∷ 0 ∷ 0 ∷ 0 ∷ []

wait_until_ready_ends_example :
    HasEnded (wait_until_ready keys (other_order 0) (others (0 ∷ not_ready)) order_backoff).0
wait_until_ready_ends_example =
    wait_until_ready_ends keys (other_order 0) (others (0 ∷ not_ready)) (omega arith)

wait_until_ready_too_late_example :
    (wait_until_ready keys (other_order 0) (others not_ready ++ ok ready ∷ []) order_backoff).0
    ≡ finished (err (order_invalid ready))
wait_until_ready_too_late_example = wait_until_ready_too_late keys [] 0 not_ready (omega arith)

abbrev domains : List Text
domains = (b'd' ∷ []) ∷ (b'e' ∷ []) ∷ []

-- The order is ready at once, and the certificate there at the second request.
abbrev answers : Answers
answers = record {
  new_order = λ domains. ok (other_order 0);
  authorizations = ok two;
  refresh = ok ready ∷ [];
  certificate_params = λ domains. ok 3;
  generate = ok 7;
  serialize_request = λ params private_key. ok (b'r' ∷ []);
  finalize_order = λ csr. ok tt;
  certificate = ok none ∷ ok (some (b'c' ∷ [])) ∷ [];
}

issued : issue domains answers ≡ (finished (ok (7, b'c' ∷ [])), (issue domains answers).1)
unfolding issue order_backoff advance new_backoff
issued = refl

issue_cleans_up_example : removed (issue domains answers).1 ≡ created (issue domains answers).1
issue_cleans_up_example =
    issue_cleans_up domains answers (7, b'c' ∷ []) (issue domains answers).1 issued

abbrev refused : Answers
refused = record answers { refresh = ok (other_order 1) ∷ err 503 ∷ [] }

abbrev two_created : List Event
two_created =
    called create (b'a' ∷ [])
    ∷ set_ready (b'u' ∷ [])
    ∷ called create (b'b' ∷ [])
    ∷ set_ready (b'u' ∷ [])
    ∷ []

both_created : process_challenges [] two ≡ (ok keys, two_created)
unfolding process_challenges
both_created = refl

issue_leaves_files_example :
    ((issue domains refused).0 ≡ finished (err (instant_acme 503)))
    × (created (issue domains refused).1 ≡ keys)
    × (removed (issue domains refused).1 ≡ [])
unfolding is_ready
issue_leaves_files_example =
    issue_leaves_files domains refused (other_order 0) two keys two_created (1 ∷ []) 503 [] refl
      refl both_created refl (omega arith) refl
