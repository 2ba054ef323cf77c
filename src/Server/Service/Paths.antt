-- ===== src/Server/Service/Paths.antt =====
-- src/server/service.rs: the path that the backend is asked for.
use penguin_rs.Base.{◌≡◌, refl, [], ◌∷◌, ◌++◌, true, false, append_assoc}
use penguin_rs.Server.Service.{Text, ends_with_slash, starts_with_slash, new_path}

ends_with_slash-append : (base : Text) → ends_with_slash (base ++ (b'/' ∷ [])) ≡ true
unfolding ends_with_slash
ends_with_slash-append [] = refl
ends_with_slash-append (c ∷ []) = refl
ends_with_slash-append (c ∷ d ∷ base) = ends_with_slash-append (d ∷ base)

-- A slash at the end of the backend's path makes no difference: where the path does not already end
-- with one, a request for an absolute path goes to the backend's path followed by it, with one
-- slash between them, whether or not the backend's path was given with a slash at its end.
pub new_path_slash :
    (base req_path_query : Text)
    → ends_with_slash base ≡ false
    → (new_path (base ++ (b'/' ∷ [])) (b'/' ∷ req_path_query) ≡ base ++ (b'/' ∷ req_path_query))
      × (new_path base (b'/' ∷ req_path_query) ≡ base ++ (b'/' ∷ req_path_query))
unfolding new_path starts_with_slash
new_path_slash base req_path_query open_end = (
  rw (ends_with_slash-append base) (append_assoc base (b'/' ∷ []) req_path_query),
  rw open_end refl,
)
