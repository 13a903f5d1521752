-- ===== src/Child/Invariant.antt =====
-- The lists of sockets fit together, and every operation keeps them so.
use wsd.Prelude.{
  ℕ, ◌≡◌, ◌≢◌, sym, ap, ◌∙◌, Bool, true, false, ◌==◌, ◌||◌, ==_iff, Bool-cases, inl, inr, some,
  none, List, [], ◌∷◌, ◌++◌, arith,
}
use wsd.Types.{Sk}
use wsd.Sock.{sk_init}
use wsd.Child.{
  World, has, fds, list_del, sk_del, forget, Accepted, client, sk_accept, sk_close, pp2_close,
  no_hash, with_backend,
}
use wsd.Child.Fds.{
  distinct, has-append, distinct-append, has-list_del_other, has-list_del_same, has-list_del,
  distinct-list_del, forget-same, has-forget, distinct-forget, fds-sk_del, fds-append,
}

abbrev pub open_fds : World → List ℕ
open_fds w = fds w.sk_list

-- No descriptor is in a list twice; a socket in the table is open, and so is one in the work list, unless
-- the node of a freed object is there, where this list is not empty; and the backend's socket is open
-- and not in the table.
pub record Inv (w : World) : Type 0 where
  pub open_once : distinct (open_fds w) ≡ true
  pub work_once : distinct w.work_list ≡ true
  pub hash_once : distinct w.sk_hash ≡ true
  pub work_open :
      w.dangling ≡ false → (fd : ℕ) → has fd w.work_list ≡ true → has fd (open_fds w) ≡ true
  pub freed_node : w.dangling ≡ true → (fd : ℕ) × (has fd w.work_list ≡ true)
  pub hash_open : (fd : ℕ) → has fd w.sk_hash ≡ true → has fd (open_fds w) ≡ true
  pub pp2_open : (fd : ℕ) → w.pp2sk ≡ some fd → has fd (open_fds w) ≡ true
  pub pp2_apart : (fd : ℕ) → w.pp2sk ≡ some fd → has fd w.sk_hash ≡ false

-- The lists in order, and no freed object in them.
abbrev pub Sound : World → Type 0
Sound w = Inv w × (w.dangling ≡ false)

-- A new socket at the end of the list.
grown :
    (w : World) (sk : Sk) (fd : ℕ)
    → has fd (open_fds w) ≡ true
    → has fd (fds (w.sk_list ++ (sk ∷ []))) ≡ true
grown w sk fd h =
    ap (has fd) (fds-append w.sk_list sk)
    ∙ has-append fd sk.fd (open_fds w)
    ∙ ap (λ b. b || sk.fd == fd) h

newest : (w : World) (sk : Sk) → has sk.fd (fds (w.sk_list ++ (sk ∷ []))) ≡ true
newest w sk =
    let e = ap (has sk.fd) (fds-append w.sk_list sk) ∙ has-append sk.fd sk.fd (open_fds w) in
    ground (arith, e)

grown_once :
    (w : World) (sk : Sk)
    → Inv w
    → has sk.fd (open_fds w) ≡ false
    → distinct (fds (w.sk_list ++ (sk ∷ []))) ≡ true
grown_once w sk i fresh =
    ap distinct (fds-append w.sk_list sk) ∙ distinct-append sk.fd (open_fds w) i.open_once fresh

-- What is not open is nowhere.
not_hashed : (w : World) (fd : ℕ) → Inv w → has fd (open_fds w) ≡ false → has fd w.sk_hash ≡ false
not_hashed w fd i fresh = elim (Bool-cases (has fd w.sk_hash)) [
  | inl there ↦ absurd (ground (arith, i.hash_open fd there, fresh))
  | inr away ↦ away
]

apart :
    (w : World) (fd new : ℕ)
    → has fd (open_fds w) ≡ true
    → has new (open_fds w) ≡ false
    → (new == fd) ≡ false
apart w fd new old fresh = elim (Bool-cases (new == fd)) [
  | inr other ↦ other
  | inl same ↦
      let e : new ≡ fd = (==_iff new fd).0 same in
      let clash : has new (open_fds w) ≡ true = rw e old in absurd (ground (arith, clash, fresh))
]

has-front : (fd new : ℕ) (xs : List ℕ) → (new == fd) ≡ false → has fd (new ∷ xs) ≡ has fd xs
unfolding has
has-front fd new xs other = rw other

pub sk_accept-Inv :
    (w : World) (a : Accepted) (tv_nsec : ℕ)
    → Inv w
    → has a.fd (open_fds w) ≡ false
    → Inv (sk_accept (some a) tv_nsec w).1
unfolding sk_accept distinct sk_init
sk_accept-Inv w a tv_nsec i fresh =
    let sk = client a tv_nsec in
    record {
      open_once = grown_once w sk i fresh;
      work_once = i.work_once;
      hash_once = ground (arith, not_hashed w a.fd i fresh, i.hash_once);
      work_open = λ d fd h. grown w sk fd (i.work_open d fd h);
      freed_node = i.freed_node;
      hash_open = λ fd h. elim (Bool-cases (a.fd == fd)) [
        | inl same ↦
            let e : a.fd ≡ fd = (==_iff a.fd fd).0 same in
            ap (λ t. has t (fds (w.sk_list ++ (sk ∷ [])))) (sym e) ∙ newest w sk
        | inr other ↦ grown w sk fd (i.hash_open fd (sym (has-front fd a.fd w.sk_hash other) ∙ h))
      ];
      pp2_open = λ fd e. grown w sk fd (i.pp2_open fd e);
      pp2_apart = λ fd e.
          has-front fd a.fd w.sk_hash (apart w fd a.fd (i.pp2_open fd e) fresh) ∙ i.pp2_apart fd e;
    }

-- What stays open when a socket is closed.
still_open :
    (w : World) (fd x : ℕ)
    → x ≢ fd
    → has x (open_fds w) ≡ true
    → has x (fds (sk_del fd w.sk_list)) ≡ true
still_open w fd x n h =
    ap (has x) (fds-sk_del fd w.sk_list) ∙ has-list_del_other x fd (open_fds w) n ∙ h

closed_once : (w : World) (fd : ℕ) → Inv w → distinct (fds (sk_del fd w.sk_list)) ≡ true
closed_once w fd i =
    ap distinct (fds-sk_del fd w.sk_list) ∙ distinct-list_del fd (open_fds w) i.open_once

-- Members of a list that `fd` is not in are not `fd`.
differs : (xs : List ℕ) (fd x : ℕ) → has fd xs ≡ false → has x xs ≡ true → x ≢ fd
differs xs fd x away h e = absurd (ground (arith, away, h, ap (λ t. has t xs) e))

pub sk_close-Inv : (w : World) (fd : ℕ) → Sound w → w.pp2sk ≢ some fd → Inv (sk_close fd w)
unfolding sk_close
sk_close-Inv w fd (i, sound) client_ =
    let gone = has-list_del_same fd w.sk_hash i.hash_once in
    record {
      open_once = closed_once w fd i;
      work_once = distinct-forget fd w.work_list i.work_once;
      hash_once = distinct-list_del fd w.sk_hash i.hash_once;
      work_open = λ d x h.
          still_open w fd x (differs (forget fd w.work_list) fd x (forget-same fd w.work_list) h)
            (i.work_open d x (has-forget x fd w.work_list h));
      freed_node = λ d. absurd (ground (arith, d, sound));
      hash_open = λ x h.
          still_open w fd x (differs (list_del fd w.sk_hash) fd x gone h)
            (i.hash_open x (has-list_del x fd w.sk_hash h));
      pp2_open = λ x e. still_open w fd x (λ same. client_ (e ∙ ap some same)) (i.pp2_open x e);
      pp2_apart = λ x e.
          has-list_del_other x fd w.sk_hash (λ same. client_ (e ∙ ap some same)) ∙ i.pp2_apart x e;
    }

none_dangles : (b waiting : Bool) → (b || waiting) ≡ false → (b ≡ false) × (waiting ≡ false)
none_dangles b waiting h = (ground (arith, h), ground (arith, h))

still_there :
    (w : World) (fd : ℕ)
    → Inv w
    → (w.dangling || has fd w.work_list) ≡ true
    → (x : ℕ) × (has x w.work_list ≡ true)
still_there w fd i d = elim (Bool-cases w.dangling) [
  | inl before ↦ i.freed_node before
  | inr sound ↦ (fd, ground (arith, d, sound))
]

-- The backend's socket may be closed at any time.
pub pp2_close-Inv : (w : World) (fd : ℕ) → Inv w → w.pp2sk ≡ some fd → Inv (pp2_close fd w)
unfolding pp2_close
pp2_close-Inv w fd i e = record {
  open_once = closed_once w fd i;
  work_once = i.work_once;
  hash_once = i.hash_once;
  work_open = λ d x h.
      let (sound, idle) = none_dangles w.dangling (has fd w.work_list) d in
      still_open w fd x (differs w.work_list fd x idle h) (i.work_open sound x h);
  freed_node = λ d. still_there w fd i d;
  hash_open =
      λ x h. still_open w fd x (differs w.sk_hash fd x (i.pp2_apart fd e) h) (i.hash_open x h);
  pp2_open = λ x n. absurd (ground (arith, n));
  pp2_apart = λ x n. absurd (ground (arith, n));
}

some_eq : (a b : ℕ) → some a ≡ some b → a ≡ b
some_eq a b e = ap (λ o. elim o [ none ↦ a | some c ↦ c ]) e

pub with_backend-Inv :
    (w : World) (fd : ℕ) → Inv w → has fd (open_fds w) ≡ false → Inv (with_backend fd w)
unfolding sk_init
with_backend-Inv w fd i fresh =
    let sk = sk_init fd no_hash in
    record {
      open_once = grown_once w sk i fresh;
      work_once = i.work_once;
      hash_once = i.hash_once;
      work_open = λ d x h. grown w sk x (i.work_open d x h);
      freed_node = i.freed_node;
      hash_open = λ x h. grown w sk x (i.hash_open x h);
      pp2_open = λ x e.
          ap (λ t. has t (fds (w.sk_list ++ (sk ∷ [])))) (sym (some_eq fd x e)) ∙ newest w sk;
      pp2_apart = λ x e. ap (λ t. has t w.sk_hash) (sym (some_eq fd x e)) ∙ not_hashed w fd i fresh;
    }
