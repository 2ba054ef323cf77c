-- ===== src/Server/Acme/Issuing.antt =====
-- What `issue` of src/server/acme/mod.rs leaves behind.
use penguin_rs.Base.{
  ℕ, ◌≡◌, refl, sym, subst, List, [], ◌∷◌, append-nil, length, ◌≤◌, ◌++◌, ◌∙◌, arith, Bool, true,
  false, Option, none, some, Result, ok, err,
}
use penguin_rs.Mux.Timing.{Backoff, advance}
use penguin_rs.Server.Service.{Text}
use penguin_rs.Server.Acme.Helper.{
  OrderStatus, ready, invalid, other_order, Error, instant_acme, certificate_generation,
  order_invalid, Event, slept, Job, Authorization, Turn, remove_files, process_challenges,
}
use penguin_rs.Server.Acme.Helper.Cleanup.{
  created, removed, created-append, removed-append, created-remove_files, removed-remove_files,
  IsLeft, IsSettled, process_challenges-IsSettled,
}
use penguin_rs.Server.Acme.Waiting.{others, HasFailed, wait_until_ready_fails}
use penguin_rs.Server.Acme.{
  Progress, waiting, panicked, finished, then_log, is_ready, after_refresh, on_refresh,
  wait_until_ready, order_backoff, Answers, Certificate, try_call, wait_for_certificate,
  finalize_order_for, on_order_ready, on_challenges, issue, seconds,
}

gives_up : Error → Bool
gives_up (order_invalid s) = true
gives_up _ = false

-- A part of the work that creates no file, and that has removed those of `done` where it ends well,
-- and all of `keys` where it gives the order up.
abbrev Clears : {A : Type 0} → List Text → List Text → Progress A × List Event → Type 0
Clears keys done (waiting, w) = Unit
Clears keys done (panicked, w) = Unit
Clears keys done (finished (ok a), w) = (created w ≡ []) × (removed w ≡ done)
Clears keys done (finished (err e), w) = gives_up e ≡ true → (created w ≡ []) × (removed w ≡ keys)

cleared :
    (keys : List Text) → (created (remove_files keys) ≡ []) × (removed (remove_files keys) ≡ keys)
cleared keys = (created-remove_files keys, removed-remove_files keys)

-- What stands before it in the log neither creates nor removes.
log-Clears :
    {A : Type 0} (keys done : List Text) (w : List Event) (job : Progress A × List Event)
    → created w ≡ []
    → removed w ≡ []
    → Clears keys done job
    → Clears keys done (then_log w job)
log-Clears keys done w (waiting, w') c r h = tt
log-Clears keys done w (panicked, w') c r h = tt
log-Clears keys done w (finished (ok a), w') c r h =
    rw (created-append w w', removed-append w w', c, r) h
log-Clears keys done w (finished (err e), w') c r h =
    rw (created-append w w', removed-append w w', c, r) h

after_refresh-Clears :
    (keys : List Text) (status : OrderStatus) (advanced : Option (Option ℕ × Backoff))
    (next : Backoff → Progress (Unit {0}) × List Event)
    → ((b : Backoff) → Clears keys [] (next b))
    → Clears keys [] (after_refresh keys status advanced next)
unfolding after_refresh created removed
after_refresh-Clears keys invalid advanced next h = λ g. cleared keys
after_refresh-Clears keys ready none next h = tt
after_refresh-Clears keys (other_order n) none next h = tt
after_refresh-Clears keys ready (some (none, b)) next h = λ g. cleared keys
after_refresh-Clears keys (other_order n) (some (none, b)) next h = λ g. cleared keys
after_refresh-Clears keys ready (some (some d, b)) next h =
    log-Clears keys [] (slept d ∷ []) (next b) refl refl (h b)
after_refresh-Clears keys (other_order n) (some (some d, b)) next h =
    log-Clears keys [] (slept d ∷ []) (next b) refl refl (h b)

wait_until_ready-Clears :
    (keys : List Text) (status : OrderStatus) (answers : List (Result ℕ OrderStatus)) (b : Backoff)
    → Clears keys [] (wait_until_ready keys status answers b)
unfolding wait_until_ready on_refresh is_ready created removed gives_up
wait_until_ready-Clears keys ready [] b = (refl, refl)
wait_until_ready-Clears keys invalid [] b = tt
wait_until_ready-Clears keys (other_order n) [] b = tt
wait_until_ready-Clears keys ready (answer ∷ answers) b = (refl, refl)
wait_until_ready-Clears keys invalid (err e ∷ answers) b = λ g. cc
wait_until_ready-Clears keys (other_order n) (err e ∷ answers) b = λ g. cc
wait_until_ready-Clears keys invalid (ok s ∷ answers) b =
    after_refresh-Clears keys s (advance b) (wait_until_ready keys s answers)
      (wait_until_ready-Clears keys s answers)
wait_until_ready-Clears keys (other_order n) (ok s ∷ answers) b =
    after_refresh-Clears keys s (advance b) (wait_until_ready keys s answers)
      (wait_until_ready-Clears keys s answers)

wait_for_certificate-Clears :
    (keys : List Text) (private_key : ℕ) (answers : List (Result ℕ (Option Text)))
    → Clears keys keys (wait_for_certificate keys private_key answers)
unfolding wait_for_certificate created removed gives_up
wait_for_certificate-Clears keys private_key [] = tt
wait_for_certificate-Clears keys private_key (err e ∷ answers) = λ g. cc
wait_for_certificate-Clears keys private_key (ok (some chain) ∷ answers) = cleared keys
wait_for_certificate-Clears keys private_key (ok none ∷ answers) =
    log-Clears keys keys (slept (seconds 1) ∷ []) (wait_for_certificate keys private_key answers)
      refl refl (wait_for_certificate-Clears keys private_key answers)

-- A call whose error does not give the order up.
try_call-Clears :
    {A B : Type 0} (keys done : List Text) (kind : ℕ → Error) (r : Result ℕ A)
    (next : A → Progress B × List Event)
    → ((n : ℕ) → gives_up (kind n) ≡ false)
    → ((a : A) → Clears keys done (next a))
    → Clears keys done (try_call kind r next)
try_call-Clears keys done kind (err e) next k h = λ g. cc (k e)
try_call-Clears keys done kind (ok a) next k h = h a

finalize_order_for-Clears :
    (domains keys : List Text) (a : Answers) → Clears keys keys (finalize_order_for domains keys a)
unfolding finalize_order_for gives_up
finalize_order_for-Clears domains keys a =
    try_call-Clears keys keys certificate_generation (a.certificate_params domains) _ (λ n. refl)
      (λ params.
        try_call-Clears keys keys certificate_generation a.generate _ (λ n. refl)
          (λ private_key.
            try_call-Clears keys keys certificate_generation
              (a.serialize_request params private_key) _ (λ n. refl)
              (λ csr.
                try_call-Clears keys keys instant_acme (a.finalize_order csr) _ (λ n. refl)
                  (λ u. wait_for_certificate-Clears keys private_key a.certificate))))

on_order_ready-Clears :
    (domains keys : List Text) (a : Answers) (job : Progress (Unit {0}) × List Event)
    → Clears keys [] job
    → Clears keys keys (on_order_ready domains keys a job)
unfolding on_order_ready
on_order_ready-Clears domains keys a (waiting, w) h = tt
on_order_ready-Clears domains keys a (panicked, w) h = tt
on_order_ready-Clears domains keys a (finished (err e), w) h = h
on_order_ready-Clears domains keys a (finished (ok u), w) h =
    log-Clears keys keys w (finalize_order_for domains keys a) h.0 h.1
      (finalize_order_for-Clears domains keys a)

-- Every file that was created is removed where the whole work ends well or gives the order up.
abbrev IsClean : Progress Certificate × List Event → Type 0
IsClean (waiting, w) = Unit
IsClean (panicked, w) = Unit
IsClean (finished (ok a), w) = created w ≡ removed w
IsClean (finished (err e), w) = gives_up e ≡ true → created w ≡ removed w

left_clean :
    (e : Error) (placed gone : List Text) → IsLeft e placed gone → gives_up e ≡ true → placed ≡ gone
unfolding gives_up
left_clean (order_invalid s) placed gone h g = h
left_clean e placed gone h g = cc

rest-IsClean :
    (keys : List Text) (w : List Event) (rest : Progress Certificate × List Event)
    → created w ≡ keys
    → removed w ≡ []
    → Clears keys keys rest
    → IsClean (then_log w rest)
rest-IsClean keys w (waiting, w') c r h = tt
rest-IsClean keys w (panicked, w') c r h = tt
rest-IsClean keys w (finished (ok a), w') c r h =
    rw (created-append w w', removed-append w w', c, r, h.0, h.1) (append-nil keys)
rest-IsClean keys w (finished (err e), w') c r h =
    λ g. rw (created-append w w', removed-append w w', c, r, (h g).0, (h g).1) (append-nil keys)

on_challenges-IsClean :
    (domains : List Text) (status : OrderStatus) (a : Answers) (job : Job (List Text))
    → IsSettled [] job
    → IsClean (on_challenges domains status a job)
unfolding on_challenges
on_challenges-IsClean domains status a (err e, w) h = left_clean e (created w) (removed w) h
on_challenges-IsClean domains status a (ok keys, w) h = rest-IsClean keys w _ h.0 h.1 (
    on_order_ready-Clears domains keys a (wait_until_ready keys status a.refresh order_backoff)
      (wait_until_ready-Clears keys status a.refresh order_backoff))

try_call-IsClean :
    {A : Type 0} (kind : ℕ → Error) (r : Result ℕ A) (next : A → Progress Certificate × List Event)
    → ((n : ℕ) → gives_up (kind n) ≡ false)
    → ((a : A) → IsClean (next a))
    → IsClean (try_call kind r next)
try_call-IsClean kind (err e) next k h = λ g. cc (k e)
try_call-IsClean kind (ok a) next k h = h a

issue-IsClean : (domains : List Text) (a : Answers) → IsClean (issue domains a)
unfolding issue gives_up
issue-IsClean domains a =
    try_call-IsClean instant_acme (a.new_order domains) _ (λ n. refl)
      (λ status.
        try_call-IsClean instant_acme a.authorizations _ (λ n. refl)
          (λ auths.
            on_challenges-IsClean domains status a (process_challenges [] auths)
              (process_challenges-IsSettled [] auths)))

-- Where a certificate is issued, the helper was called to remove exactly the files of challenges that
-- it was called to create, in the same order.
pub issue_cleans_up :
    (domains : List Text) (a : Answers) (certificate : Certificate) (w : List Event)
    → issue domains a ≡ (finished (ok certificate), w)
    → removed w ≡ created w
issue_cleans_up domains a certificate w h = sym (subst IsClean h (issue-IsClean domains a))

-- So it is where the order is given up because of its status.
pub issue_gives_up_cleanly :
    (domains : List Text) (a : Answers) (status : OrderStatus) (w : List Event)
    → issue domains a ≡ (finished (err (order_invalid status)), w)
    → removed w ≡ created w
unfolding gives_up
issue_gives_up_cleanly domains a status w h = sym (subst IsClean h (issue-IsClean domains a) refl)

failed-LeavesFiles :
    (domains keys : List Text) (a : Answers) (w : List Event) (e : ℕ)
    (job : Progress (Unit {0}) × List Event)
    → HasFailed e job
    → let result = then_log w (on_order_ready domains keys a job) in
      (result.0 ≡ finished (err (instant_acme e)))
      × (created result.1 ≡ created w)
      × (removed result.1 ≡ removed w)
unfolding on_order_ready
failed-LeavesFiles domains keys a w e (finished (ok u), w') (q, c, r) = absurd (cc q)
failed-LeavesFiles domains keys a w e (waiting, w') (q, c, r) = absurd (cc q)
failed-LeavesFiles domains keys a w e (panicked, w') (q, c, r) = absurd (cc q)
failed-LeavesFiles domains keys a w e (finished (err e'), w') (q, c, r) = (
  ground (arith, q),
  rw (created-append w w', c) (append-nil (created w)),
  rw (removed-append w w', r) (append-nil (removed w)),
)

-- An error of the ACME server while the order is waited for, at one of the at most eleven requests,
-- where the answers before it were neither ready nor invalid, ends the work at once: if all the
-- challenges of the order were accepted before, the helper was called to create their files, and was
-- not called to remove any.
pub issue_leaves_files :
    (domains : List Text) (a : Answers) (status : OrderStatus) (auths : List (Authorization × Turn))
    (keys : List Text) (w : List Event) (ns : List ℕ) (e : ℕ)
    (answers : List (Result ℕ OrderStatus))
    → a.new_order domains ≡ ok status
    → a.authorizations ≡ ok auths
    → process_challenges [] auths ≡ (ok keys, w)
    → is_ready status ≡ false
    → length ns ≤ 10
    → a.refresh ≡ others ns ++ err e ∷ answers
    → ((issue domains a).0 ≡ finished (err (instant_acme e)))
      × (created (issue domains a).1 ≡ keys)
      × (removed (issue domains a).1 ≡ [])
unfolding issue on_challenges
issue_leaves_files domains a status auths keys w ns e answers o au p s l f =
    let settled = subst (IsSettled []) p (process_challenges-IsSettled [] auths) in
    let (failed, c, r) =
      failed-LeavesFiles domains keys a w e _
        (wait_until_ready_fails keys e answers status ns s l) in
    rw (o, au, p, f) (failed, c ∙ settled.0, r ∙ settled.1)
