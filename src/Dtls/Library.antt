-- ===== src/Dtls/Library.antt =====
-- What the DTLS protocols use of OpenSSL, whose state is `L`: queues of datagrams (`BIO`) and
-- connections (`SSL`), behind pointers.
use moon_state.Prelude.{ℕ, ◌+◌, ◌<◌, ◌≤◌, ◌≡◌, Bool, false, Option, List, length}
use moon_state.Prelude.Int.{ℤ}
use moon_state.BufArray.{Ptr}

-- A read gives the bytes that it got; it got none where the call returns 0 or less. A write gives
-- how many bytes it took, and 0 where the call returns less.
pub record Library (L : Type 0) : Type 0 where
  pub bio_new : L → Option (Ptr × L)
  pub bio_eof : Ptr → L → Bool
  pub bio_pending : Ptr → L → ℕ
  pub bio_read : Ptr → ℕ → L → List ℕ × L
  pub bio_write : Ptr → List ℕ → L → ℕ × L
  pub ssl_new : Ptr → L → Option (Ptr × L)
  pub ssl_set_accept_state : Ptr → L → L
  pub ssl_set_connect_state : Ptr → L → L
  pub ssl_set_bio : Ptr → Ptr → Ptr → L → L
  pub ssl_set_mtu : Ptr → ℕ → L → L
  pub ssl_accept : Ptr → L → L
  pub ssl_connect : Ptr → L → L
  pub ssl_is_init_finished : Ptr → L → Bool
  pub ssl_read : Ptr → ℕ → L → List ℕ × L
  pub ssl_write : Ptr → List ℕ → L → ℕ × L
  pub ssl_get_shutdown : Ptr → L → ℕ
  pub ssl_shutdown : Ptr → L → ℤ × L
  pub ssl_free : Ptr → L → L

-- What the code relies on of a queue: it is at its end, or a read of at least one byte gets
-- something, no more than was asked for, and takes it out.
pub record IsQueue {L : Type 0} (lib : Library L) : Type 0 where
  pub some_read :
      (b : Ptr) (n : ℕ) (l : L)
      → lib.bio_eof b l ≡ false
      → 0 < n
      → 0 < length (lib.bio_read b n l).0
  pub at_most : (b : Ptr) (n : ℕ) (l : L) → length (lib.bio_read b n l).0 ≤ n
  pub taken :
      (b : Ptr) (n : ℕ) (l : L)
      → lib.bio_pending b (lib.bio_read b n l).1 + length (lib.bio_read b n l).0
        ≤ lib.bio_pending b l
