-- ===== src/Admission/Flows/Turn.antt =====
-- No flow starves another: the place of a flow in the line bounds how long it waits.
use opod_core.Base.{
  ℕ, zero, suc, ◌≡◌, refl, ap, sym, subst, ◌∙◌, List, [], ◌∷◌, ◌++◌, Option, none, some, String,
  arith, ◌===◌, length, Bool-cases, inl, inr, append_assoc,
}
use opod_core.Admission.Flows.{HeldReq, DrrQueue, push, pop}
use opod_core.Admission.Flows.Inv.{Line, line_of, Inv}
use opod_core.Admission.Flows.Pop.{pop-refines}
use opod_core.Admission.Flows.Visit.{serve_head}
use opod_core.Admission.Flows.Push.{join_line, push-refines}

-- What happens to a queue: a request arrives, or one is served.
pub data Act : Type 0 where
  arrive : HeldReq → Act
  serve : Act

abbrev pub after_pop :
    Option (Option HeldReq × DrrQueue) → (DrrQueue → Option DrrQueue) → Option DrrQueue
after_pop none k = none
after_pop (some (r, q)) k = k q

-- `none` when a `pop` panics on the way.
unfoldable pub run : List Act → DrrQueue → Option DrrQueue
run [] q = some q
run (arrive h ∷ acts) q = run acts (push q h)
run (serve ∷ acts) q = after_pop (pop q) (run acts)

abbrev pub serves : List Act → ℕ
serves [] = 0
serves (arrive h ∷ acts) = serves acts
serves (serve ∷ acts) = suc (serves acts)

-- The flow `id`, whose oldest request is `h`, has `k` flows before it.
abbrev pub Place : ℕ → String → HeldReq → Line → Type 0
Place k id h l =
    (before : Line) × (rs : List HeldReq) × (after : Line) × (l ≡ before ++ (id, h ∷ rs) ∷ after)
    × (length before ≡ k)

join-split :
    (x : HeldReq) (id : String) (h : HeldReq) (rs : List HeldReq) (before after : Line)
    → Place (length before) id h (join_line x (before ++ (id, h ∷ rs) ∷ after))
join-split x id h rs [] after = elim (Bool-cases (id === x.flow)) [
  | inl e ↦ ([], rs ++ x ∷ [], after, rw e, refl)
  | inr e ↦ ([], rs, join_line x after, rw e, refl)
]
join-split x id h rs ((y, ys) ∷ before) after = elim (Bool-cases (y === x.flow)) [
  | inl e ↦ ((y, ys ++ x ∷ []) ∷ before, rs, after, rw e, refl)
  | inr e ↦
      let (b, r, a, same, len) = join-split x id h rs before after in
      ((y, ys) ∷ b, r, a, rw (e, same), omega (arith, len))
]

Place-join :
    (x : HeldReq) (k : ℕ) (id : String) (h : HeldReq) (l : Line)
    → Place k id h l
    → Place k id h (join_line x l)
Place-join x k id h l (before, rs, after, e, len) = rw e (
    subst (λ n. Place n id h (join_line x (before ++ (id, h ∷ rs) ∷ after))) len
      (join-split x id h rs before after))

serve-split :
    (id : String) (h : HeldReq) (rs : List HeldReq) (y : String) (ys : List HeldReq)
    (before after : Line)
    → Place (length before) id h (serve_head ((y, ys) ∷ (before ++ (id, h ∷ rs) ∷ after))).1
serve-split id h rs y [] before after = (before, rs, after, refl, refl)
serve-split id h rs y (z ∷ []) before after = (before, rs, after, refl, refl)
serve-split id h rs y (z ∷ w ∷ ys) before after =
    (before, rs, after ++ (y, w ∷ ys) ∷ [], append_assoc before ((id, h ∷ rs) ∷ after) _, refl)

Place-serve :
    (k : ℕ) (id : String) (h : HeldReq) (l : Line)
    → Place (suc k) id h l
    → Place k id h (serve_head l).1
Place-serve k id h l ([], rs, after, e, len) = absurd (omega arith)
Place-serve k id h l ((y, ys) ∷ before, rs, after, e, len) =
    let shorter : length before ≡ k = omega arith in
    rw e (
      subst (λ n. Place n id h (serve_head ((y, ys) ∷ (before ++ (id, h ∷ rs) ∷ after))).1) shorter
        (serve-split id h rs y ys before after))

served_first : (id : String) (h : HeldReq) (l : Line) → Place 0 id h l → (serve_head l).0 ≡ some h
served_first id h l ([], [], after, e, len) = rw e refl
served_first id h l ([], r ∷ rs, after, e, len) = rw e refl
served_first id h l (y ∷ before, rs, after, e, len) = absurd (omega arith)

-- A flow with `k` flows before it has its oldest request served by the next `pop` after any run of
-- arrivals and exactly `k` serves; nothing on the way panics.
pub served_in_turn :
    (acts : List Act) (q : DrrQueue) (k : ℕ) (id : String) (h : HeldReq)
    → Inv q
    → Place k id h (line_of q)
    → serves acts ≡ k
    → (q' : DrrQueue) × (q'' : DrrQueue) × (run acts q ≡ some q') × (pop q' ≡ some (some h, q''))
unfolding run
served_in_turn [] q k id h v p c =
    let (r, q', ran, v', e) = pop-refines q v in
    let first : Place 0 id h (line_of q) = subst (λ n. Place n id h (line_of q)) (sym c) p in
    let got : r ≡ some h = sym (ap (λ t. t.0) e) ∙ served_first id h (line_of q) first in
    (q, q', refl, rw (← got) ran)
served_in_turn (arrive x ∷ acts) q k id h v p c =
    let (v', n, l) = push-refines q x v in
    served_in_turn acts (push q x) k id h v' (rw l (Place-join x k id h (line_of q) p)) c
served_in_turn (serve ∷ acts) q zero id h v p c = absurd (omega arith)
served_in_turn (serve ∷ acts) q (suc k) id h v p c =
    let (r, q', ran, v', e) = pop-refines q v in
    let moved : (serve_head (line_of q)).1 ≡ line_of q' = ap (λ t. t.1) e in
    rw ran (
      served_in_turn acts q' k id h v'
        (subst (Place k id h) moved (Place-serve k id h (line_of q) p)) (omega arith))
