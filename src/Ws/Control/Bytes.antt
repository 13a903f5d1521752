-- ===== src/Ws/Control/Bytes.antt =====
-- The bytes of the control frames that the encoders store.
use wsd.Prelude.{
  lt→ltb, ℕ, ◌+◌, ◌/◌, ◌%◌, ◌^◌, ◌≤◌, ◌<◌, ◌≡◌, refl, ap, ◌∙◌, Bool, true, false, ltb, ltb→le,
  append-nil, if◌then◌else◌, List, [], ◌∷◌, ◌++◌, length, length-append, some, arith, inl, inr,
  Bool-cases,
}
use wsd.Prelude.Words.{le_bytes, be_bytes, bswap}
use wsd.Skb.{Skb, write, put}
use wsd.Skb.Contents.{IsValid, room, wrsz-eq, write-IsValid, wrpos-write}
use wsd.Skb.Moves.{write-write}
use wsd.Types.{ok, fail, enomem}
use wsd.Mask.{mask}
use wsd.Mask.Laws.{mask-IsByte}
use wsd.Ws.Header.{set_fin_bit, set_opcode, ws_close_frame, set_payload_len}
use wsd.Ws.Header.Laws.{mask_flag, len_bytes, set_payload_len_lem, put_byte, put_swapped2}
use wsd.Ws.Control.{
  frame_len, status_len, control_key, staged, put_head, put_status, encode_ping_pong_frame,
  encode_close_frame,
}

-- The first byte of a control frame.
abbrev pub fin_op : ℕ → ℕ
fin_op op = set_opcode (set_fin_bit 0) op

abbrev pub key_bytes : Bool → List ℕ
key_bytes do_mask = if do_mask then le_bytes 4 control_key else []

-- A control frame up to its payload of `len` bytes, at most 125.
abbrev pub control_head : ℕ → Bool → ℕ → List ℕ
control_head op do_mask len = fin_op op ∷ (mask_flag do_mask + len) ∷ key_bytes do_mask

pub length-control_head : (op len : ℕ) (m : Bool) → length (control_head op m len) ≡ frame_len m
length-control_head op len true = refl
length-control_head op len false = refl

short_len_bytes : (m : Bool) (len : ℕ) → len < 126 → len_bytes m len ≡ (mask_flag m + len) ∷ []
short_len_bytes m len h = ground arith

module _ (dst : Skb) (op len : ℕ) (v : IsValid dst) (byte : fin_op op < 256) (short : len < 126)
    (r : 2 ≤ room dst) where
  len_stored :
      (m : Bool)
      → set_payload_len (put 1 (fin_op op) dst) len (mask_flag m)
        ≡ some (write dst (fin_op op ∷ (mask_flag m + len) ∷ []))
  len_stored m =
      let one = write-IsValid (fin_op op ∷ []) v (omega (arith, r)) in
      let w = wrpos-write (fin_op op ∷ []) v (omega (arith, r)) in
      let size : length (len_bytes m len) ≡ 1 = ap length (short_len_bytes m len short) in
      ap (λ b. set_payload_len b len (mask_flag m)) (put_byte (fin_op op) dst byte)
      ∙ set_payload_len_lem m len one (omega (arith, short)) (omega (arith, size, w, r))
      ∙ ap (λ l. some (write (write dst (fin_op op ∷ [])) l)) (short_len_bytes m len short)
      ∙ ap some
          (write-write dst (fin_op op ∷ []) ((mask_flag m + len) ∷ []) (omega (arith, v.fits)) refl)

  pub put_head-eq :
      (m : Bool)
      → frame_len m ≤ room dst
      → put_head dst (staged op m len) m ≡ some (write dst (control_head op m len))
  unfolding put_head
  put_head-eq false h = rw (len_stored false, put_head)
  put_head-eq true h =
      rw (len_stored true, put_head)
        (unfold put in
          ap some (
            write-write dst (fin_op op ∷ (128 + len) ∷ []) (le_bytes 4 control_key)
              (omega (arith, v.fits)) refl))

pub frame_len-ge : (m : Bool) → 2 ≤ frame_len m
frame_len-ge true = omega arith
frame_len-ge false = omega arith

-- With room for it a ping or pong frame is stored; without, ENOMEM, and nothing is stored.
pub encode_ping_pong_frame_lem :
    (dst : Skb) (op : ℕ) (m : Bool)
    → IsValid dst
    → fin_op op < 256
    → encode_ping_pong_frame dst op m ≡ (
        if ltb (room dst) (frame_len m)
        then some (fail enomem, dst)
        else some (ok, write dst (control_head op m 0)))
unfolding encode_ping_pong_frame
encode_ping_pong_frame_lem dst op m v byte =
    rw (wrsz-eq v) (elim (Bool-cases (ltb (room dst) (frame_len m))) [
      | inl full ↦ rw full
      | inr free ↦
          let r : frame_len m ≤ room dst = ltb→le (room dst) (frame_len m) free in
          rw (
            free,
            put_head-eq dst op 0 v byte (omega arith) (omega (arith, r, frame_len-ge m)) m r,
            encode_ping_pong_frame,
          )
    ])

-- The two bytes of status that follow the head, as they are stored.
abbrev pub status_bytes : ℕ → Bool → List ℕ
status_bytes status do_mask =
    if do_mask
    then mask (bswap 2 status / 4 % 256) 0 control_key
      ∷ mask (bswap 2 status % 256) 1 control_key
      ∷ []
    else be_bytes 2 status

abbrev pub close_frame : ℕ → Bool → List ℕ
close_frame status m =
    control_head ws_close_frame m (status_len status)
    ++ (if ltb 0 status then status_bytes status m else [])

-- The frames of a status that is not 0, byte by byte.
pub close_frame-plain :
    (status : ℕ) → 0 < status → close_frame status false ≡ 0x88 ∷ 2 ∷ be_bytes 2 status
close_frame-plain status h = rw (lt→ltb 0 status h)

pub close_frame-masked :
    (status : ℕ)
    → 0 < status
    → close_frame status true ≡ 0x88 ∷ 130 ∷ (le_bytes 4 control_key ++ status_bytes status true)
close_frame-masked status h = rw (lt→ltb 0 status h)

status_len-lt : (status : ℕ) → status_len status < 126
status_len-lt status = ground arith

status_stored :
    (b : Skb) (status : ℕ) (m : Bool)
    → b.wrpos + 2 ≤ 2 ^ 31
    → put_status status m b ≡ write b (status_bytes status m)
unfolding put_status
status_stored b status false h = put_swapped2 status b
status_stored b status true h =
    let k = bswap 2 status in
    let one = mask (k / 2 ^ 2 % 256) 0 control_key in
    let two = mask (k % 256) 1 control_key in
    ap (put 1 two) (put_byte one b (mask-IsByte (k / 2 ^ 2 % 256) 0 control_key (omega arith)))
    ∙ put_byte two (write b (one ∷ [])) (mask-IsByte (k % 256) 1 control_key (omega arith))
    ∙ write-write b (one ∷ []) (two ∷ []) h refl

length-status_bytes : (status : ℕ) (m : Bool) → length (status_bytes status m) ≡ 2
length-status_bytes status true = refl
length-status_bytes status false = refl

two-ge : (m : Bool) → frame_len m ≤ 6
two-ge true = omega arith
two-ge false = omega arith

-- The head with the status behind it, if there is one.
with_status :
    (dst : Skb) (status : ℕ) (m : Bool)
    → IsValid dst
    → frame_len m + status_len status ≤ room dst
    → (if ltb 0 status
        then put_status status m (write dst (control_head ws_close_frame m (status_len status)))
        else write dst (control_head ws_close_frame m (status_len status)))
      ≡ write dst (close_frame status m)
with_status dst status m v r = elim (Bool-cases (ltb 0 status)) [
  | inl there ↦
      let head = control_head ws_close_frame m 2 in
      let size = length-control_head ws_close_frame 2 m in
      let fits : length head ≤ room dst = omega (arith, size, r) in
      rw there (
        status_stored (write dst head) status m
          (omega (arith, wrpos-write head v fits, v.fits, size, two-ge m))
        ∙ write-write dst head (status_bytes status m)
            (omega (arith, size, two-ge m, v.fits, length-status_bytes status m))
            (length-append head (status_bytes status m)))
  | inr absent ↦ rw (absent, append-nil)
]

pub encode_close_frame_lem :
    (dst : Skb) (status : ℕ) (m : Bool)
    → IsValid dst
    → encode_close_frame dst status m ≡ (
        if ltb (room dst) (frame_len m + status_len status)
        then some (fail enomem, dst)
        else some (ok, write dst (close_frame status m)))
unfolding encode_close_frame
encode_close_frame_lem dst status m v =
    rw (wrsz-eq v) (elim (Bool-cases (ltb (room dst) (frame_len m + status_len status))) [
      | inl full ↦ rw full
      | inr free ↦
          let r : frame_len m + status_len status ≤ room dst = ltb→le (room dst) _ free in
          rw
            (
              free,
              put_head-eq dst ws_close_frame (status_len status) v (omega arith)
                  (status_len-lt status) (omega (arith, r, frame_len-ge m)) m (omega (arith, r)),
              encode_close_frame,
            )
            (ap (λ b. some (ok, b)) (with_status dst status m v r))
    ])

pub status_len-le : (status : ℕ) → status_len status ≤ 2
status_len-le status = ground arith

pub length-close_frame :
    (status : ℕ) (m : Bool) → length (close_frame status m) ≡ frame_len m + status_len status
length-close_frame status m = elim (Bool-cases (ltb 0 status)) [
  | inl there ↦ rw there (
      omega (
        arith,
        length-append (control_head ws_close_frame m 2) (status_bytes status m),
        length-control_head ws_close_frame 2 m,
        length-status_bytes status m,
      ))
  | inr absent ↦ rw (absent, append-nil) (omega (arith, length-control_head ws_close_frame 0 m))
]
