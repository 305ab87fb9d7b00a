-- ===== src/Rpc/Resolve.antt =====
-- nfsv4/rpc.c, `push_initial_path`: the directory is resolved and the last component handed back.
use ssqlite.Prelude.{ℕ, ◌≡◌, refl, List, [], ◌∷◌, ◌++◌, none, some}
use ssqlite.Rpc.Request.{split_last, push_initial_path, push_resolution_rfh}
use ssqlite.System.{Rpc}

split_last-append :
    (front : List (List ℕ)) (x : List ℕ) → split_last (front ++ (x ∷ [])) ≡ some (front, x)
unfolding split_last
split_last-append [] x = refl
split_last-append (y ∷ []) x = refl
split_last-append (y ∷ z ∷ front) x = rw (split_last-append (z ∷ front) x) refl

-- `push_initial_path` of a path that ends in `x` resolves the components before `x` from the root
-- filehandle and returns `x`; of an empty path it has no result, as `vector_get` panics.
pub push_initial_path-append :
    (front : List (List ℕ)) (x : List ℕ) (r : Rpc)
    → (push_initial_path (front ++ (x ∷ [])) r ≡ some (push_resolution_rfh front r, x))
      × (push_initial_path [] r ≡ none)
unfolding push_initial_path
push_initial_path-append front x r =
    (rw (split_last-append front x, push_initial_path) refl, unfold split_last in refl)
