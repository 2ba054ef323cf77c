-- ===== src/Server/Acme/Helper.antt =====
-- src/server/acme/challenge_helper.rs: the external command that puts the files of a challenge in
-- place and takes them away.
--
-- The ACME server and the processes are arguments: what the calls for one authorization give. A job
-- returns its result with the events that it caused. Errors of other crates are numbers.
pub mod Cleanup
use penguin_rs.Base.{
  ℕ, List, [], ◌∷◌, ◌++◌, map, Option, none, some, Result, ok, err, if◌then◌else◌, ◌==◌,
}
use penguin_rs.Server.Service.{Text}

pub data Action : Type 0 where
  create remove : Action

unfoldable pub as_str : Action → Text
as_str create = b'c' ∷ b'r' ∷ b'e' ∷ b'a' ∷ b't' ∷ b'e' ∷ []
as_str remove = b'r' ∷ b'e' ∷ b'm' ∷ b'o' ∷ b'v' ∷ b'e' ∷ []

-- The cases of the types of `instant_acme` that the code tells apart.
pub data AuthorizationStatus : Type 0 where
  valid pending : AuthorizationStatus
  other_authorization : ℕ → AuthorizationStatus

pub data ChallengeType : Type 0 where
  http01 : ChallengeType
  other_challenge : ℕ → ChallengeType

pub data OrderStatus : Type 0 where
  ready invalid : OrderStatus
  other_order : ℕ → OrderStatus

pub record Challenge : Type 0 where
  pub kind : ChallengeType
  pub url : Text
  -- What `order.key_authorization` gives for it.
  pub key_auth : Text

pub record Authorization : Type 0 where
  pub status : AuthorizationStatus
  pub challenges : List Challenge

-- `Error` of src/server/acme/mod.rs.
pub data Error : Type 0 where
  instant_acme challenge_helper_execution certificate_generation tls : ℕ → Error
  auth_invalid : AuthorizationStatus → Error
  order_invalid : OrderStatus → Error
  no_http01_challenge_support : Error

-- A call of the helper with its two arguments, whether or not the process could be started; what
-- the ACME server is told; and a wait, in nanoseconds.
pub data Event : Type 0 where
  called : Action → Text → Event
  set_ready : Text → Event
  slept : ℕ → Event

abbrev pub Job : Type 0 → Type 0
Job A = Result Error A × List Event

-- What the two processes and the server give for one authorization; a process that ends gives its
-- exit status.
pub record Turn : Type 0 where
  pub spawn : Result ℕ (Unit {0})
  pub wait : Result ℕ ℕ
  pub set_challenge_ready : Result ℕ (Unit {0})

-- The arguments of the process.
unfoldable pub helper_args : Action → Text → List Text
unfolding as_str
helper_args action key_authorization = as_str action ∷ key_authorization ∷ []

is_http01 : ChallengeType → Option ℕ
is_http01 http01 = none
is_http01 (other_challenge n) = some n

unfoldable pub find_http01 : List Challenge → Option Challenge
unfolding is_http01
find_http01 [] = none
find_http01 (c ∷ challenges) =
    let later = find_http01 challenges in elim (is_http01 c.kind) [ none ↦ some c | some n ↦ later ]

unfoldable pub ok_or_none : Option Challenge → Result Error (Option Challenge)
ok_or_none none = err no_http01_challenge_support
ok_or_none (some c) = ok (some c)

-- The challenge of an authorization that still waits, and `none` for one that is valid.
unfoldable pub challenge_of : AuthorizationStatus → List Challenge → Result Error (Option Challenge)
unfolding find_http01 ok_or_none
challenge_of valid challenges = ok none
challenge_of pending challenges = ok_or_none (find_http01 challenges)
challenge_of (other_authorization n) challenges = err (auth_invalid (other_authorization n))

-- The helper is run and waited for; its exit status is not looked at.
unfoldable pub create_file : Turn → Challenge → Job (Option (Text × Text))
create_file turn c =
    let result : Result Error (Option (Text × Text)) = elim turn.spawn [
      | err e ↦ err (challenge_helper_execution e)
      | ok u ↦ elim turn.wait [
        | err e ↦ err (challenge_helper_execution e)
        | ok exit_status ↦ ok (some (c.key_auth, c.url))
      ]
    ] in
    (result, called create c.key_auth ∷ [])

unfoldable pub on_challenge : Turn → Result Error (Option Challenge) → Job (Option (Text × Text))
unfolding create_file
on_challenge turn (err e) = (err e, [])
on_challenge turn (ok none) = (ok none, [])
on_challenge turn (ok (some c)) = create_file turn c

unfoldable pub one_challenge : Turn → Authorization → Job (Option (Text × Text))
unfolding challenge_of on_challenge
one_challenge turn auth = on_challenge turn (challenge_of auth.status auth.challenges)

unfoldable pub remove_files : List Text → List Event
remove_files keys = map (called remove) keys

-- What comes after one challenge: `next` is the rest of the loop.
unfoldable pub after_one :
    List Text → Turn → Job (Option (Text × Text)) → (List Text → Job (List Text)) → Job (List Text)
unfolding remove_files
after_one executed turn (ok none, w) next = let (r, w') = next executed in (r, w ++ w')
after_one executed turn (ok (some (key, url)), w) next =
    let (r, w') = next (executed ++ key ∷ []) in
    elim turn.set_challenge_ready [
      | ok u ↦ (r, w ++ (set_ready url ∷ w'))
      | err e ↦ (err (instant_acme e), w ++ set_ready url ∷ [])
    ]
after_one executed turn (err e, w) next = (err e, w ++ remove_files executed)

-- The loop over the authorizations, with the keys of the challenges that are in place.
unfoldable pub process_challenges : List Text → List (Authorization × Turn) → Job (List Text)
unfolding after_one one_challenge
process_challenges executed [] = (ok executed, [])
process_challenges executed ((auth, turn) ∷ auths) =
    after_one executed turn (one_challenge turn auth)
      (λ executed'. process_challenges executed' auths)
