-- ===== src/Router/Latency/Window.antt =====
-- The ring holds the last samples, oldest first.
use opod_core.Base.{
  ℕ, zero, suc, ◌+◌, ◌-◌, ◌≤◌, ◌<◌, ◌≡◌, refl, ap, sym, subst, ◌∙◌, Bool, true, false, List, [],
  ◌∷◌, ◌++◌, some, arith, leb, length, take, drop, get_elem?, lt→ltb, length-append, append_assoc,
  append-nil, length_split, take-append_self, drop-append_self, take-append_suc, drop-append_suc,
  get_elem?_below, split_at, ℤ,
}
use opod_core.Router.Latency.{RingBuf, new_ring, write_at, push, snapshot, zeros, window_of}

pub record Inv (r : RingBuf) : Type 0 where
  pub head_ok : r.head < length r.data_

-- The last `n` of a list.
abbrev pub last_n : ℕ → List ℕ → List ℕ
last_n n xs = drop (length xs - n) xs

length-zeros : (n : ℕ) → length (zeros n) ≡ n
length-zeros zero = refl
length-zeros (suc n) = ap suc (length-zeros n)

pub new_ring-Inv : (w : ℤ) → Inv (new_ring w) × (snapshot (new_ring w) ≡ [])
unfolding new_ring snapshot
new_ring-Inv w = (record { head_ok = omega (arith, length-zeros (window_of w), positive) }, refl)
  where
    positive : 0 < window_of w
    positive = ground arith

-- One sample more: the oldest goes when the ring is full.
abbrev pub Pushed : ℕ → RingBuf → Type 0
Pushed d r =
    (r' : RingBuf) × (push d r ≡ some r')
    × Inv r'
    × (length r'.data_ ≡ length r.data_)
    × (snapshot r' ≡ last_n (length r.data_) (snapshot r ++ d ∷ []))

-- A ring, cut at its head.
abbrev cut : List ℕ → ℕ → List ℕ → Bool → RingBuf
cut b x a full = record { data_ = b ++ x ∷ a; head = length b; full = full }

write_at-cut : (b a : List ℕ) (x d : ℕ) → write_at (length b) d (b ++ x ∷ a) ≡ some (b ++ d ∷ a)
write_at-cut b a x d =
    rw
      (
        lt→ltb (length b) (length (b ++ x ∷ a)) (omega (arith, length-append b (x ∷ a))),
        take-append_self b (x ∷ a),
        drop-append_suc b a x,
      )
      refl

-- `push` at the last place, and before it.
push_wraps :
    (b : List ℕ) (x d : ℕ) (full : Bool)
    → push d (cut b x [] full) ≡ some (record { data_ = b ++ d ∷ []; head = 0; full = true })
unfolding push
push_wraps b x d full =
    rw (write_at-cut b [] x d, ends (length (b ++ d ∷ [])) (length b) (length-append b (d ∷ [])))
      refl
  where
    ends : (m n : ℕ) → m ≡ n + 1 → leb m (suc n) ≡ true
    ends m n e = ground arith

push_steps :
    (b a : List ℕ) (x y d : ℕ) (full : Bool)
    → push d (cut b x (y ∷ a) full)
      ≡ some (record { data_ = b ++ d ∷ y ∷ a; head = suc (length b); full = full })
unfolding push
push_steps b a x y d full =
    rw
      (
        write_at-cut b (y ∷ a) x d,
        goes_on (length (b ++ d ∷ y ∷ a)) (length b) (length a) (length-append b (d ∷ y ∷ a)),
      )
      refl
  where
    goes_on : (m n k : ℕ) → m ≡ n + suc (suc k) → leb m (suc n) ≡ false
    goes_on m n k e = ground arith

last_n-all : (n : ℕ) (xs : List ℕ) → length xs ≤ n → last_n n xs ≡ xs
last_n-all n xs h = ap (λ k. drop k xs) (zero_diff (length xs) n h)
  where
    zero_diff : (m n : ℕ) → m ≤ n → m - n ≡ 0
    zero_diff m n h = omega arith

last_n-tail : (n x : ℕ) (xs : List ℕ) → length xs ≡ n → last_n n (x ∷ xs) ≡ xs
last_n-tail n x xs h = ap (λ k. drop k (x ∷ xs)) (one_diff (length xs) n h)
  where
    one_diff : (m n : ℕ) → m ≡ n → suc m - n ≡ 1
    one_diff m n h = omega arith

Pushed-cut : (b a : List ℕ) (x d : ℕ) (full : Bool) → Pushed d (cut b x a full)
unfolding snapshot
Pushed-cut b [] x d false = (
  _,
  push_wraps b x d false,
  record { head_ok = omega (arith, length-append b (d ∷ [])) },
  length-append b (d ∷ []) ∙ sym (length-append b (x ∷ [])),
  append-nil (b ++ d ∷ [])
      ∙ rw (take-append_self b (x ∷ [])) (
          sym (
            last_n-all (length (b ++ x ∷ [])) (b ++ d ∷ [])
              (omega (arith, length-append b (d ∷ []), length-append b (x ∷ []))))),
)
Pushed-cut b [] x d true = (
  _,
  push_wraps b x d true,
  record { head_ok = omega (arith, length-append b (d ∷ [])) },
  length-append b (d ∷ []) ∙ sym (length-append b (x ∷ [])),
  append-nil (b ++ d ∷ [])
      ∙ rw (take-append_self b (x ∷ []), drop-append_self b (x ∷ []))
          (sym (
            last_n-tail (length (b ++ x ∷ [])) x (b ++ d ∷ [])
              (omega (arith, length-append b (d ∷ []), length-append b (x ∷ []))))),
)
Pushed-cut b (y ∷ a) x d false = (
  _,
  push_steps b a x y d false,
  record { head_ok = omega (arith, length-append b (d ∷ y ∷ a)) },
  length-append b (d ∷ y ∷ a) ∙ sym (length-append b (x ∷ y ∷ a)),
  rw (take-append_suc b (y ∷ a) d, take-append_self b (x ∷ y ∷ a))
      (sym (
        last_n-all (length (b ++ x ∷ y ∷ a)) (b ++ d ∷ [])
          (omega (arith, length-append b (d ∷ []), length-append b (x ∷ y ∷ a))))),
)
Pushed-cut b (y ∷ a) x d true = (
  _,
  push_steps b a x y d true,
  record { head_ok = omega (arith, length-append b (d ∷ y ∷ a)) },
  length-append b (d ∷ y ∷ a) ∙ sym (length-append b (x ∷ y ∷ a)),
  rw
      (
        take-append_suc b (y ∷ a) d,
        drop-append_suc b (y ∷ a) d,
        take-append_self b (x ∷ y ∷ a),
        drop-append_self b (x ∷ y ∷ a),
      )
      (sym (append_assoc (y ∷ a) b (d ∷ []))
        ∙ sym (
            last_n-tail (length (b ++ x ∷ y ∷ a)) x (((y ∷ a) ++ b) ++ d ∷ []) (
              omega (
                arith,
                length-append ((y ∷ a) ++ b) (d ∷ []),
                length-append (y ∷ a) b,
                length-append b (x ∷ y ∷ a),
              )))),
)

-- On a ring whose head is inside it, `push` panics nowhere and keeps the ring so; the window, oldest
-- first, is then the last samples of the old window and the new one, as many as the ring holds.
pub push-refines_window : (d : ℕ) (r : RingBuf) → Inv r → Pushed d r
push-refines_window d r v =
    let (x, e) = get_elem?_below r.data_ r.head v.head_ok in
    subst (Pushed d) (sym (whole x e))
      (Pushed-cut (take r.head r.data_) (drop (suc r.head) r.data_) x d r.full)
  where
    whole :
        (x : ℕ)
        → get_elem? r.data_ r.head ≡ some x
        → r ≡ cut (take r.head r.data_) x (drop (suc r.head) r.data_) r.full
    whole x e =
        ap {A = List ℕ} (λ xs. record { data_ = xs; head = r.head; full = r.full })
          (split_at r.data_ r.head e)
        ∙ ap {A = ℕ}
            (λ h. record {
              data_ = take r.head r.data_ ++ x ∷ drop (suc r.head) r.data_;
              head = h;
              full = r.full;
            })
            (sym (length_split r.data_ r.head (omega (arith, v.head_ok))))
