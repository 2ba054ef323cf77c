-- ===== src/Server/Acme/Renewing.antt =====
-- The renewal of certificates in src/server/acme/mod.rs: what the server uses while it goes on.
use penguin_rs.Base.{ℕ, ◌≡◌, refl, ◌∙◌, List, [], ◌∷◌, Result, ok, err}
use penguin_rs.Server.Acme.Helper.{Error}
use penguin_rs.Server.Acme.{
  reload_tls_identity_from_rcgen_pem, Certificate, Renewal, on_issued, renewal_task,
}

abbrev pub last_or : ℕ → List ℕ → ℕ
last_or identity [] = identity
last_or identity (config ∷ made) = last_or config made

abbrev pub with_config : Result ℕ ℕ → List ℕ → List ℕ
with_config (err e) made = made
with_config (ok config) made = config ∷ made

abbrev pub with_issued : Result Error Certificate → (Certificate → Result ℕ ℕ) → List ℕ → List ℕ
with_issued (err e) make made = made
with_issued (ok certificate) make made = with_config (make certificate) made

-- The configurations that were made for the certificates that were issued.
abbrev pub configs : List Renewal → List ℕ
configs [] = []
configs (round ∷ rounds) = with_issued round.issued round.make_server_config (configs rounds)

reload-last_or :
    (identity : ℕ) (r : Result ℕ ℕ) (made : List ℕ)
    → last_or (reload_tls_identity_from_rcgen_pem identity r).1 made
      ≡ last_or identity (with_config r made)
unfolding reload_tls_identity_from_rcgen_pem
reload-last_or identity (err e) made = refl
reload-last_or identity (ok config) made = refl

on_issued-last_or :
    (identity : ℕ) (issued : Result Error Certificate) (make : Certificate → Result ℕ ℕ)
    (made : List ℕ)
    → last_or (on_issued identity issued make) made
      ≡ last_or identity (with_issued issued make made)
unfolding on_issued
on_issued-last_or identity (err e) make made = refl
on_issued-last_or identity (ok certificate) make made =
    reload-last_or identity (make certificate) made

-- A renewal that fails, at whatever step, keeps what the server uses: it uses the last configuration
-- that was made for an issued certificate, or the first one.
pub renewal_task_keeps :
    (identity : ℕ) (rounds : List Renewal)
    → renewal_task identity rounds ≡ last_or identity (configs rounds)
unfolding renewal_task
renewal_task_keeps identity [] = refl
renewal_task_keeps identity (round ∷ rounds) =
    renewal_task_keeps (on_issued identity round.issued round.make_server_config) rounds
    ∙ on_issued-last_or identity round.issued round.make_server_config (configs rounds)
