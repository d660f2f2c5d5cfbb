-- ===== src/Pipe/Contents.antt =====
-- The bytes that a pipe holds, oldest first, and what one write or read of a byte does to them.
use compiling_to_assembly.Prelude.{
  ℕ, zero, suc, ◌+◌, ◌-◌, ◌%◌, ◌^◌, ◌≤◌, ◌<◌, ◌≡◌, refl, ap, List, [], ◌∷◌, ◌++◌, arith, ◌==◌,
  update, length,
}
use compiling_to_assembly.Pipe.{pipe_size, add_uint, Pipe, is_full, put, is_empty, init}

-- the difference of the counters, as a `uint`
abbrev pub len : Pipe → ℕ
len p = (p.nwrite + 2 ^ 32 - p.nread) % 2 ^ 32

pub record IsValid (p : Pipe) : Type 0 where
  pub read_small : p.nread < 2 ^ 32
  pub write_small : p.nwrite < 2 ^ 32
  pub in_ring : len p ≤ pipe_size

-- the `n` bytes from counter `r` on
abbrev pub window : (ℕ → ℕ) → ℕ → ℕ → List ℕ
window bytes r zero = []
window bytes r (suc n) = bytes (r % pipe_size) ∷ window bytes (add_uint r 1) n

abbrev pub contents : Pipe → List ℕ
contents p = window (p.bytes) (p.nread) (len p)

length-window : (bytes : ℕ → ℕ) (r n : ℕ) → length (window bytes r n) ≡ n
length-window bytes r zero = refl
length-window bytes r (suc n) = ap suc (length-window bytes (add_uint r 1) n)

pub length-contents : (p : Pipe) → length (contents p) ≡ len p
length-contents p = length-window (p.bytes) (p.nread) (len p)

-- The test for a full ring, which wraps with the counters, is right in a valid pipe.
pub is_full_lem : (p : Pipe) → IsValid p → is_full p ≡ (len p == pipe_size)
unfolding is_full
is_full_lem p v = ground arith

pub is_empty_lem : (p : Pipe) → IsValid p → is_empty p ≡ (len p == 0)
unfolding is_empty
is_empty_lem p v = ground arith

-- Writing just past a window extends it by that byte, as long as the ring has room.
window-update :
    (bytes : ℕ → ℕ) (c n r w : ℕ)
    → n < pipe_size
    → w ≡ add_uint r n
    → window (update bytes (w % pipe_size) c) r (suc n) ≡ window bytes r n ++ (c ∷ [])
window-update bytes c zero r w h e = ground arith
window-update bytes c (suc n) r w h e = ground (arith, window-update bytes c n (add_uint r 1) w)

pub contents-put :
    (p : Pipe) (c : ℕ) → IsValid p → len p < pipe_size → contents (put p c) ≡ contents p ++ (c ∷ [])
unfolding put
contents-put p c v h =
    let e : (add_uint (p.nwrite) 1 + 2 ^ 32 - p.nread) % 2 ^ 32 ≡ suc (len p) = omega arith in
    rw e (window-update (p.bytes) c (len p) (p.nread) (p.nwrite) h (omega arith))

pub put-IsValid :
    (p : Pipe) (c : ℕ)
    → IsValid p
    → len p < pipe_size
    → IsValid (put p c) × (len (put p c) ≡ len p + 1)
unfolding put
put-IsValid p c v h = ground arith

-- one byte taken from the front
abbrev pub advance : Pipe → Pipe
advance p = record p { nread = add_uint (p.nread) 1 }

pub advance-IsValid :
    (p : Pipe)
    → IsValid p
    → 0 < len p
    → IsValid (advance p) × (contents p ≡ p.bytes (p.nread % pipe_size) ∷ contents (advance p))
advance-IsValid p v h =
    let e : len p ≡ suc (len (advance p)) = omega arith in
    (omega arith, ap (window (p.bytes) (p.nread)) e)

-- A fresh pipe is valid and holds nothing.
pub init-IsValid : (page : ℕ → ℕ) → IsValid (init page) × (contents (init page) ≡ [])
unfolding init
init-IsValid page = (omega arith, refl)
