-- ===== src/Server/Acme/Helper/Cleanup.antt =====
-- For which files of challenges src/server/acme/challenge_helper.rs calls the helper.
use penguin_rs.Base.{
  ℕ, ◌≡◌, refl, sym, ap, ◌∙◌, List, [], ◌∷◌, ◌++◌, append-nil, append_assoc, none, some, Result, ok,
  err, subst,
}
use penguin_rs.Server.Service.{Text}
use penguin_rs.Server.Acme.Helper.{
  create, remove, Authorization, Turn, Event, called, set_ready, slept, Error, instant_acme,
  challenge_helper_execution, Challenge, AuthorizationStatus, valid, pending, other_authorization,
  challenge_of, ok_or_none, find_http01, create_file, on_challenge, one_challenge, remove_files,
  after_one, process_challenges, Job,
}

-- The keys for which the helper was called to create, and to remove, a file.
unfoldable pub created : List Event → List Text
created [] = []
created (called create key ∷ w) = key ∷ created w
created (called remove key ∷ w) = created w
created (set_ready url ∷ w) = created w
created (slept d ∷ w) = created w

unfoldable pub removed : List Event → List Text
removed [] = []
removed (called create key ∷ w) = removed w
removed (called remove key ∷ w) = key ∷ removed w
removed (set_ready url ∷ w) = removed w
removed (slept d ∷ w) = removed w

pub created-append : (w w' : List Event) → created (w ++ w') ≡ created w ++ created w'
unfolding created
created-append [] w' = refl
created-append (called create key ∷ w) w' = ap (λ t. key ∷ t) (created-append w w')
created-append (called remove key ∷ w) w' = created-append w w'
created-append (set_ready url ∷ w) w' = created-append w w'
created-append (slept d ∷ w) w' = created-append w w'

pub removed-append : (w w' : List Event) → removed (w ++ w') ≡ removed w ++ removed w'
unfolding removed
removed-append [] w' = refl
removed-append (called create key ∷ w) w' = removed-append w w'
removed-append (called remove key ∷ w) w' = ap (λ t. key ∷ t) (removed-append w w')
removed-append (set_ready url ∷ w) w' = removed-append w w'
removed-append (slept d ∷ w) w' = removed-append w w'

pub created-remove_files : (keys : List Text) → created (remove_files keys) ≡ []
unfolding created remove_files
created-remove_files [] = refl
created-remove_files (key ∷ keys) = created-remove_files keys

pub removed-remove_files : (keys : List Text) → removed (remove_files keys) ≡ keys
unfolding removed remove_files
removed-remove_files [] = refl
removed-remove_files (key ∷ keys) = ap (λ t. key ∷ t) (removed-remove_files keys)

-- The files that the helper was called to put in place and to take away, where the loop ends by an
-- error: all of them are to be taken away, but for the last one where that call failed; after an error
-- of the ACME server none is.
abbrev pub IsLeft : Error → List Text → List Text → Type 0
IsLeft (instant_acme n) placed gone = gone ≡ []
IsLeft (challenge_helper_execution n) placed gone = (key : Text) × (placed ≡ gone ++ key ∷ [])
IsLeft _ placed gone = placed ≡ gone

-- The end of the loop that started after the calls for the files of `executed`.
abbrev pub IsSettled : List Text → Job (List Text) → Type 0
IsSettled executed (ok keys, w) = (executed ++ created w ≡ keys) × (removed w ≡ [])
IsSettled executed (err e, w) = IsLeft e (executed ++ created w) (removed w)

-- The helper is called for the file of `key`, and the rest of the loop follows.
IsSettled-create :
    (executed : List Text) (key url : Text) (job : Job (List Text))
    → IsSettled (executed ++ key ∷ []) job
    → IsSettled executed (job.0, called create key ∷ set_ready url ∷ job.1)
unfolding created removed
IsSettled-create executed key url (ok keys, w) h =
    (sym (append_assoc executed (key ∷ []) (created w)) ∙ h.0, h.1)
IsSettled-create executed key url (err e, w) h =
    subst (λ placed. IsLeft e placed (removed w)) (append_assoc executed (key ∷ []) (created w)) h

restored :
    (executed : List Text)
    → executed ++ created (remove_files executed) ≡ removed (remove_files executed)
restored executed =
    ap (λ t. executed ++ t) (created-remove_files executed)
    ∙ (append-nil executed ∙ sym (removed-remove_files executed))

one_left :
    (executed : List Text) (key : Text)
    → executed ++ (created (called create key ∷ remove_files executed))
      ≡ removed (called create key ∷ remove_files executed) ++ key ∷ []
unfolding created removed
one_left executed key = rw (created-remove_files executed, removed-remove_files executed) refl

module _ (executed : List Text) (turn : Turn) (next : List Text → Job (List Text))
    (h : (executed' : List Text) → IsSettled executed' (next executed')) where
  settle_created :
      (c : Challenge) (spawn : Result ℕ (Unit {0})) (wait : Result ℕ ℕ)
      (accepted : Result ℕ (Unit {0}))
      → IsSettled executed (
          after_one executed
            (record { spawn = spawn; wait = wait; set_challenge_ready = accepted })
            (create_file (record { spawn = spawn; wait = wait; set_challenge_ready = accepted }) c)
            next)
  unfolding create_file after_one removed
  settle_created c (err e) wait accepted = (c.key_auth, one_left executed c.key_auth)
  settle_created c (ok u) (err e) accepted = (c.key_auth, one_left executed c.key_auth)
  settle_created c (ok u) (ok exit_status) (err e) = refl
  settle_created c (ok u) (ok exit_status) (ok u') =
      IsSettled-create executed c.key_auth c.url (next (executed ++ c.key_auth ∷ [])) (h _)

  settle_one :
      (s : AuthorizationStatus) (challenges : List Challenge)
      → IsSettled executed
          (after_one executed turn (on_challenge turn (challenge_of s challenges)) next)
  unfolding challenge_of ok_or_none on_challenge after_one
  settle_one valid challenges = h executed
  settle_one pending challenges =
      elim (find_http01 challenges)
        as (λ o.
          IsSettled executed (after_one executed turn (on_challenge turn (ok_or_none o)) next)) [
            | none ↦ restored executed
            | some c ↦ settle_created c turn.spawn turn.wait turn.set_challenge_ready
          ]
  settle_one (other_authorization n) challenges = restored executed

-- However the processes of the helper end, whatever their exit status, and whatever the ACME server
-- answers: the loop that ends well has called the helper to create the files whose keys it returns, in
-- order and none else, and has not called it to remove any. Where the loop ends by an error, it was
-- called to remove just those that it was called to create, in the same order, but for the last one if
-- that call itself failed; after an error of the ACME server, however, it was called to remove none.
pub process_challenges-IsSettled :
    (executed : List Text) (auths : List (Authorization × Turn))
    → IsSettled executed (process_challenges executed auths)
unfolding process_challenges one_challenge created removed
process_challenges-IsSettled executed [] = (append-nil executed, refl)
process_challenges-IsSettled executed ((auth, turn) ∷ auths) =
    settle_one executed turn (λ executed'. process_challenges executed' auths)
      (λ executed'. process_challenges-IsSettled executed' auths) auth.status auth.challenges
