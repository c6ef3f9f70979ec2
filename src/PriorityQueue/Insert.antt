-- ===== src/PriorityQueue/Insert.antt =====
-- services/scheduler/utils.c: the loop of `queue_push` against an insertion into a sorted list.
use lugh_os.Base.{
  ℕ, zero, suc, ◌≤◌, ltb, if◌then◌else◌, true, List, [], ◌∷◌, ◌++◌, length, get_or, set, All, ◌≡◌,
  refl, sym, ap, ◌∙◌, arith, inl, inr, Bool-cases, subst, ltb-false,
}
use lugh_os.Messages.{Message, blank}
use lugh_os.PriorityQueue.{shift}

-- Behind the messages of the same or a higher priority, before the rest. A lower number is a
-- higher priority.
unfoldable pub insert : Message → List Message → List Message
insert m [] = m ∷ []
insert m (x ∷ xs) =
    let rest = insert m xs in if ltb m.priority x.priority then m ∷ x ∷ xs else x ∷ rest

-- No message comes before one of a higher priority.
abbrev pub Sorted : List Message → Type 0
Sorted [] = Unit
Sorted (x ∷ xs) = All (λ y. x.priority ≤ y.priority) xs × Sorted xs

-- The array after the loop and the write of the new message.
abbrev pub placed : List Message → ℕ → Message → List Message
placed ms n m = set (shift ms n m.priority).0 (shift ms n m.priority).1 m

pub get_or-middle {ℓ} :
    {A : Type ℓ} (xs ys : List A) (y d : A) → get_or (xs ++ y ∷ ys) (length xs) d ≡ y
get_or-middle [] ys y d = refl
get_or-middle (x ∷ xs) ys y d = get_or-middle xs ys y d

pub set-middle {ℓ} :
    {A : Type ℓ} (xs ys : List A) (y v : A) → set (xs ++ y ∷ ys) (length xs) v ≡ xs ++ v ∷ ys
set-middle [] ys y v = refl
set-middle (x ∷ xs) ys y v = ap (λ t. x ∷ t) (set-middle xs ys y v)

set-after {ℓ} :
    {A : Type ℓ} (xs ys : List A) (x y v : A)
    → set (xs ++ x ∷ y ∷ ys) (suc (length xs)) v ≡ xs ++ x ∷ v ∷ ys
set-after [] ys x y v = refl
set-after (w ∷ xs) ys x y v = ap (λ t. w ∷ t) (set-after xs ys x y v)

-- A message of a lower priority at the end stays behind the one inserted.
insert-before_last :
    (m w : Message) (xs : List Message)
    → ltb m.priority w.priority ≡ true
    → insert m (xs ++ w ∷ []) ≡ insert m xs ++ w ∷ []
unfolding insert
insert-before_last m w [] h = rw h refl
insert-before_last m w (x ∷ xs) h = elim (Bool-cases (ltb m.priority x.priority)) [
  | inl e ↦ rw e refl
  | inr e ↦ rw e (ap (λ t. x ∷ t) (insert-before_last m w xs h))
]

insert-last :
    (m : Message) (xs : List Message)
    → All (λ x. x.priority ≤ m.priority) xs
    → insert m xs ≡ xs ++ m ∷ []
unfolding insert
insert-last m [] a = refl
insert-last m (x ∷ xs) (l, a) =
    rw (ltb-false m.priority x.priority l) (ap (λ t. x ∷ t) (insert-last m xs a))

Sorted-front : (xs : List Message) (w : Message) → Sorted (xs ++ w ∷ []) → Sorted xs
Sorted-front [] w s = tt
Sorted-front (x ∷ xs) w (a, s) = (All-front xs w a, Sorted-front xs w s)
  where
    All-front :
        (ys : List Message) (v : Message)
        → All (λ y. x.priority ≤ y.priority) (ys ++ v ∷ [])
        → All (λ y. x.priority ≤ y.priority) ys
    All-front [] v a = tt
    All-front (y ∷ ys) v (l, a) = (l, All-front ys v a)

Sorted-below :
    (xs : List Message) (w : Message)
    → Sorted (xs ++ w ∷ [])
    → All (λ x. x.priority ≤ w.priority) xs
Sorted-below [] w s = tt
Sorted-below (x ∷ xs) w (a, s) = (last xs w a, Sorted-below xs w s)
  where
    last :
        (ys : List Message) (v : Message)
        → All (λ y. x.priority ≤ y.priority) (ys ++ v ∷ [])
        → x.priority ≤ v.priority
    last [] v (l, a) = l
    last (y ∷ ys) v (l, a) = last ys v a

All-trans :
    (xs : List Message) (a b : ℕ)
    → a ≤ b
    → All (λ x. x.priority ≤ a) xs
    → All (λ x. x.priority ≤ b) xs
All-trans [] a b l h = tt
All-trans (x ∷ xs) a b l (h, r) = (omega (arith, h, l), All-trans xs a b l r)

All-snoc :
    (xs : List Message) (w : Message) (b : ℕ)
    → All (λ x. x.priority ≤ b) xs
    → w.priority ≤ b
    → All (λ x. x.priority ≤ b) (xs ++ w ∷ [])
All-snoc [] w b h l = (l, tt)
All-snoc (x ∷ xs) w b (h, r) l = (h, All-snoc xs w b r l)

snoc_view {ℓ} :
    {A : Type ℓ} (x : A) (xs : List A)
    → (ws : List A) × (w : A) × ((x ∷ xs ≡ ws ++ w ∷ []) × (length ws ≡ length xs))
snoc_view x [] = ([], x, (refl, refl))
snoc_view x (y ∷ ys) =
    let (ws, w, (e, l)) = snoc_view y ys in (x ∷ ws, w, (ap (λ t. x ∷ t) e, ap suc l))

pub one_more {ℓ} : {A : Type ℓ} (xs zs : List A) (w : A) → (xs ++ w ∷ []) ++ zs ≡ xs ++ w ∷ zs
one_more [] zs w = refl
one_more (x ∷ xs) zs w = ap (λ t. x ∷ t) (one_more xs zs w)

placed-snoc :
    (ws zs : List Message) (w y m : Message)
    → Sorted (ws ++ w ∷ [])
    → ((ys : List Message) (v : Message) → placed (ws ++ v ∷ ys) (length ws) m ≡ insert m ws ++ ys)
    → placed (ws ++ w ∷ y ∷ zs) (suc (length ws)) m ≡ insert m (ws ++ w ∷ []) ++ zs
unfolding shift
placed-snoc ws zs w y m s ih = elim (Bool-cases (ltb m.priority w.priority)) [
  | inl lower ↦
      rw (get_or-middle ws (y ∷ zs) w blank, lower, set-after ws zs w y w)
        (ih (w ∷ zs) w
          ∙ sym (ap (λ t. t ++ zs) (insert-before_last m w ws lower) ∙ one_more (insert m ws) zs w))
  | inr e ↦
      let before =
        All-snoc ws w m.priority
          (All-trans ws w.priority m.priority (ground arith) (Sorted-below ws w s))
          (ground arith) in
      rw (get_or-middle ws (y ∷ zs) w blank, e)
        (set-after ws zs w y m
          ∙ sym (
              ap (λ t. t ++ zs) (insert-last m (ws ++ w ∷ []) before)
              ∙ one_more (ws ++ w ∷ []) zs m
              ∙ one_more ws (m ∷ zs) w))
]

-- The loop and the write put the message where the insertion puts it, over the slot behind.
pub placed-insert :
    (n : ℕ) (xs zs : List Message) (y m : Message)
    → length xs ≡ n
    → Sorted xs
    → placed (xs ++ y ∷ zs) n m ≡ insert m xs ++ zs
unfolding shift insert
placed-insert zero [] zs y m e s = refl
placed-insert zero (x ∷ xs) zs y m e s = absurd (omega (arith, e))
placed-insert (suc n) [] zs y m e s = absurd (omega (arith, e))
placed-insert (suc n) (x ∷ xs) zs y m e s =
    let (ws, w, (split, size)) = snoc_view x xs in
    let sorted : Sorted (ws ++ w ∷ []) = subst Sorted split s in
    let len : length ws ≡ n = omega (arith, size, e) in
    let rest = placed-snoc ws zs w y m sorted (λ ys. λ v.
      subst (λ k. placed (ws ++ v ∷ ys) k m ≡ insert m ws ++ ys) (sym len)
        (placed-insert n ws ys v m len (Sorted-front ws w sorted))) in
    subst (λ k. placed ((x ∷ xs) ++ y ∷ zs) (suc k) m ≡ insert m (x ∷ xs) ++ zs) len
      (subst (λ t. placed (t ++ y ∷ zs) (suc (length ws)) m ≡ insert m t ++ zs) (sym split)
        (ap (λ t. placed t (suc (length ws)) m) (one_more ws (y ∷ zs) w) ∙ rest))

pub insert-length : (m : Message) (xs : List Message) → length (insert m xs) ≡ suc (length xs)
unfolding insert
insert-length m [] = refl
insert-length m (x ∷ xs) = elim (Bool-cases (ltb m.priority x.priority)) [
  | inl e ↦ rw e refl
  | inr e ↦ rw e (ap suc (insert-length m xs))
]

-- A property of the new message and of all others holds of all.
pub insert-All {κ} :
    (P : Message → Type κ) (m : Message) (xs : List Message) → P m → All P xs → All P (insert m xs)
unfolding insert
insert-All P m [] p a = (p, tt)
insert-All P m (x ∷ xs) p (q, a) = elim (Bool-cases (ltb m.priority x.priority)) [
  | inl e ↦ rw e (p, (q, a))
  | inr e ↦ rw e (q, insert-All P m xs p a)
]

All-below :
    (a b : ℕ) (xs : List Message)
    → a ≤ b
    → All (λ y. b ≤ y.priority) xs
    → All (λ y. a ≤ y.priority) xs
All-below a b [] l h = tt
All-below a b (x ∷ xs) l (h, r) = (omega (arith, h, l), All-below a b xs l r)

pub insert-Sorted : (m : Message) (xs : List Message) → Sorted xs → Sorted (insert m xs)
unfolding insert
insert-Sorted m [] s = (tt, tt)
insert-Sorted m (x ∷ xs) (a, s) = elim (Bool-cases (ltb m.priority x.priority)) [
  | inl e ↦ rw e ((ground arith, All-below m.priority x.priority xs (ground arith) a), (a, s))
  | inr e ↦
      rw e (insert-All (λ y. x.priority ≤ y.priority) m xs (ground arith) a, insert-Sorted m xs s)
]
