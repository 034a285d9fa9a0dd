-- ===== src/Steering/Delivery.antt =====
-- What is pushed is delivered once, in order, and only in its own scope.
use pirs.Prelude.{
  ◌≡◌, refl, sym, ap, ◌∙◌, Bool, true, false, Option, none, some, List, [], ◌∷◌, ◌++◌, append_assoc,
  append-nil, inl, inr, if◌then◌else◌, arith, Bool-cases,
}
use pirs.Prelude.Text.{Text, text_eq, text_eq_iff}
use pirs.Steering.{
  QueueMode, all, one_at_a_time, Store, Handle, queue_of, put_queue, push_scoped, push_to, push,
  pending_at, released, retained, drain_at, drain,
}

queue_of-put_queue :
    (k j : Text) (q : List Text) (m : List (Text × List Text))
    → queue_of j (put_queue k q m) ≡ (if text_eq k j then q else queue_of j m)
unfolding queue_of put_queue
queue_of-put_queue k j q [] = refl
queue_of-put_queue k j q ((i, r) ∷ m) =
    ground (arith, text_eq_iff i k, text_eq_iff i j, text_eq_iff k j, queue_of-put_queue k j q m)

released-retained : (mode : QueueMode) (q : List Text) → released mode q ++ retained mode q ≡ q
unfolding released retained
released-retained all q = append-nil q
released-retained one_at_a_time [] = refl
released-retained one_at_a_time (t ∷ q) = refl

-- Two handles read the same queue.
abbrev pub same_scope : Option Text → Option Text → Bool
same_scope none none = true
same_scope none (some j) = false
same_scope (some k) none = false
same_scope (some k) (some j) = text_eq k j

pending-drain_at :
    (mode : QueueMode) (scope other : Option Text) (s : Store)
    → pending_at other (drain_at mode scope s).1
      ≡ (if same_scope scope other then retained mode (pending_at other s) else pending_at other s)
unfolding pending_at drain_at
pending-drain_at mode none none s = refl
pending-drain_at mode none (some j) s = refl
pending-drain_at mode (some k) none s = refl
pending-drain_at mode (some k) (some j) s =
    ground (
      arith,
      text_eq_iff k j,
      queue_of-put_queue k j (retained mode (queue_of k s.scoped)) s.scoped,
    )

released-drain_at :
    (mode : QueueMode) (scope : Option Text) (s : Store)
    → (drain_at mode scope s).0 ≡ released mode (pending_at scope s)
unfolding pending_at drain_at
released-drain_at mode none s = refl
released-drain_at mode (some k) s = refl

pending-push_to :
    (scope other : Option Text) (text : Text) (s : Store)
    → pending_at other (push_to scope text s)
      ≡ (if same_scope scope other then pending_at other s ++ text ∷ [] else pending_at other s)
unfolding pending_at push_to push_scoped
pending-push_to none none text s = refl
pending-push_to none (some j) text s = refl
pending-push_to (some k) none text s = refl
pending-push_to (some k) (some j) text s =
    ground
      (arith, text_eq_iff k j, queue_of-put_queue k j (queue_of k s.scoped ++ text ∷ []) s.scoped)

-- The calls that the holders of handles make, in the order in which the lock serialises them.
pub data Call : Type 0 where
  push_call : Handle → Text → Call
  drain_call : Handle → Call

-- The texts that a run hands out to the handles of one scope, and the store that it ends in.
unfoldable pub delivered : Option Text → List Call → Store → List Text
delivered c [] s = []
delivered c (push_call h text ∷ calls) s = delivered c calls (push h text s)
delivered c (drain_call h ∷ calls) s =
    let (texts, s') = drain h s in
    (if same_scope h.scope c then texts else []) ++ delivered c calls s'

unfoldable pub run : List Call → Store → Store
run [] s = s
run (push_call h text ∷ calls) s = run calls (push h text s)
run (drain_call h ∷ calls) s = run calls (drain h s).1

-- The texts that a run pushes into one scope.
unfoldable pub pushed : Option Text → List Call → List Text
pushed c [] = []
pushed c (push_call h text ∷ calls) =
    (if same_scope h.scope c then text ∷ [] else []) ++ pushed c calls
pushed c (drain_call h ∷ calls) = pushed c calls

same_scope-eq : (a b : Option Text) → same_scope a b ≡ true → a ≡ b
same_scope-eq none none h = refl
same_scope-eq none (some j) h = absurd (cc)
same_scope-eq (some k) none h = absurd (cc)
same_scope-eq (some k) (some j) h = ap some ((text_eq_iff k j).0 h)

push-step :
    (c : Option Text) (h : Handle) (text : Text) (s : Store)
    → pending_at c (push h text s)
      ≡ pending_at c s ++ (if same_scope h.scope c then text ∷ [] else [])
unfolding push
push-step c h text s = elim (Bool-cases (same_scope h.scope c)) [
  | inl e ↦ rw (pending-push_to h.scope c text s, e)
  | inr e ↦ rw (pending-push_to h.scope c text s, e, append-nil)
]

-- One poll: what the scope is handed, and what stays queued for it, is what was queued.
drain-step :
    (c : Option Text) (h : Handle) (s : Store)
    → (if same_scope h.scope c then (drain h s).0 else []) ++ pending_at c (drain h s).1
      ≡ pending_at c s
unfolding drain
drain-step c h s = elim (Bool-cases (same_scope h.scope c)) [
  | inl e ↦
      let same : h.scope ≡ c = same_scope-eq h.scope c e in
      rw (e, pending-drain_at h.mode h.scope c s, e, released-drain_at h.mode h.scope s, same)
        (released-retained h.mode (pending_at c s))
  | inr e ↦ rw (e, pending-drain_at h.mode h.scope c s, e)
]

-- Over any interleaving of pushes and polls, by any handles in either mode, each scope gets exactly
-- what was pushed into it, once and in order: what it was handed, then what is still queued for it,
-- is what was queued at the start, then what was pushed.
pub delivered-pending :
    (c : Option Text) (calls : List Call) (s : Store)
    → delivered c calls s ++ pending_at c (run calls s) ≡ pending_at c s ++ pushed c calls
unfolding delivered run pushed push
delivered-pending c [] s = sym (append-nil (pending_at c s))
delivered-pending c (push_call h text ∷ calls) s =
    delivered-pending c calls (push h text s)
    ∙ ap (λ q. q ++ pushed c calls) (push-step c h text s)
    ∙ append_assoc (pending_at c s) (if same_scope h.scope c then text ∷ [] else [])
        (pushed c calls)
delivered-pending c (drain_call h ∷ calls) s =
    let got : List Text = if same_scope h.scope c then (drain h s).0 else [] in
    let s' = (drain h s).1 in
    append_assoc got (delivered c calls s') (pending_at c (run calls s'))
    ∙ ap (λ q. got ++ q) (delivered-pending c calls s')
    ∙ sym (append_assoc got (pending_at c s') (pushed c calls))
    ∙ ap (λ q. q ++ pushed c calls) (drain-step c h s)
