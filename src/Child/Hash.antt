-- ===== src/Child/Hash.antt =====
-- The hash of a client tells its address, its port and the clock's last bits.
use wsd.Prelude.{ℕ, ◌/◌, ◌%◌, ◌^◌, ◌<◌, ◌≡◌, ap, arith}
use wsd.Types.{SockAddr}
use wsd.Child.{hash}

-- An address of 4 and a port of 2 bytes.
pub record IsAddr (a : SockAddr) : Type 0 where
  pub addr : a.sin_addr < 2 ^ 32
  pub port : a.sin_port < 2 ^ 16

pub hash-fields :
    (a : SockAddr) (t : ℕ)
    → IsAddr a
    → (hash a t / 2 ^ 32 ≡ a.sin_addr)
      × (hash a t / 2 ^ 16 % 2 ^ 16 ≡ a.sin_port)
      × (hash a t % 2 ^ 16 ≡ t % 2 ^ 16)
unfolding hash
hash-fields a t h =
    (omega (arith, h.addr, h.port), omega (arith, h.addr, h.port), omega (arith, h.addr, h.port))

-- Two clients with an address of 4 and a port of 2 bytes that have the same hash have the same address
-- and the same port, and were accepted at times with the same last 16 bits of nanoseconds.
pub hash_lem :
    (a b : SockAddr) (t u : ℕ)
    → IsAddr a
    → IsAddr b
    → hash a t ≡ hash b u
    → (a.sin_addr ≡ b.sin_addr) × (a.sin_port ≡ b.sin_port) × (t % 2 ^ 16 ≡ u % 2 ^ 16)
hash_lem a b t u h g e =
    let (p, q, r) = hash-fields a t h in
    let (x, y, z) = hash-fields b u g in
    (
      omega (arith, p, x, ap (λ n. n / 2 ^ 32) e),
      omega (arith, q, y, ap (λ n. n / 2 ^ 16 % 2 ^ 16) e),
      omega (arith, r, z, ap (λ n. n % 2 ^ 16) e),
    )
