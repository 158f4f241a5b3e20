-- ===== src/Mock/Rest/Statuses.antt =====
-- mockserver/mock_server.go: the status of an answer.
use httpio.Base.{ℕ, zero, suc, ◌≡◌, refl, [], ◌∷◌, Option, none, some, Bytes, bytes, ◌++◌}
use httpio.Mock.{ResponseWriter, write, write_header, http_error, put_header}

-- The first status counts.
pub write_header-none :
    (c : ℕ) (w : ResponseWriter) → w.status ≡ none → (write_header c w).status ≡ some c
unfolding write_header
write_header-none c w h = rw h refl

pub write_header-some :
    (c code : ℕ) (w : ResponseWriter) → w.status ≡ some c → (write_header code w).status ≡ some c
unfolding write_header
write_header-some c code w h = rw h refl

pub write-some :
    (b : Bytes) (c : ℕ) (w : ResponseWriter) → w.status ≡ some c → (write b w).1.status ≡ some c
unfolding write
write-some b c w h = go w.left refl
  where
    go : (left : Option ℕ) → w.left ≡ left → (write b w).1.status ≡ some c
    go none l = rw (write, l) (write_header-some c 200 w h)
    go (some zero) l = rw (write, l) (write_header-some c 200 w h)
    go (some (suc n)) l = rw (write, l) (write_header-some c 200 w h)

-- The headers of an error.
abbrev plain : ResponseWriter → ResponseWriter
plain w =
    put_header (bytes "X-Content-Type-Options") (bytes "nosniff")
      (put_header (bytes "Content-Type") (bytes "text/plain; charset=utf-8") w)

pub http_error-some :
    (text : Bytes) (c code : ℕ) (w : ResponseWriter)
    → w.status ≡ some c
    → (http_error text code w).status ≡ some c
unfolding http_error
http_error-some text c code w h =
    write-some (text ++ 10 ∷ []) c (write_header code (plain w))
      (write_header-some c code (plain w) h)

pub http_error-none :
    (text : Bytes) (c : ℕ) (w : ResponseWriter)
    → w.status ≡ none
    → (http_error text c w).status ≡ some c
unfolding http_error
http_error-none text c w h =
    write-some (text ++ 10 ∷ []) c (write_header c (plain w)) (write_header-none c (plain w) h)
