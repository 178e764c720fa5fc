-- ===== src/Ublksrv/Aio/Linked/Refines.antt =====
-- The lists with pointers implement sequences.
use s3blk.Base.{
  ℕ, ◌≡◌, ◌≢◌, ◌⊎◌, inl, inr, refl, sym, ap, ◌∙◌, subst, arith, true, false, ◌==◌, ==_iff, List, [],
  ◌∷◌, ◌++◌,
}
use s3blk.Ublksrv.Types.{set_at}
use s3blk.Ublksrv.Owner.Count.{set_at_self, set_at_ne}
use s3blk.Ublksrv.Aio.Linked.{AioList, aio_list_init, aio_list_add, aio_list_splice, aio_list_pop}

-- The requests from `p` on.
abbrev pub Chain : (ℕ → ℕ) → ℕ → List ℕ → Type 0
Chain next p [] = p ≡ 0
Chain next p (x ∷ xs) = (p ≡ x) × (x ≢ 0) × Chain next (next x) xs

-- The last request, or `p` if there is none.
abbrev pub last_of : ℕ → List ℕ → ℕ
last_of p [] = p
last_of p (x ∷ xs) = last_of x xs

-- The list consists of these requests in this order.
abbrev pub IsList : (ℕ → ℕ) → AioList → List ℕ → Type 0
IsList next al xs = Chain next al.head xs × (al.tail ≡ last_of 0 xs)

abbrev pub Absent : ℕ → List ℕ → Type 0
Absent t [] = Unit {0}
Absent t (x ∷ xs) = (x ≢ t) × Absent t xs

abbrev pub Distinct : List ℕ → Type 0
Distinct [] = Unit {0}
Distinct (x ∷ xs) = Absent x xs × Distinct xs

-- A request of another list may change.
Chain-set_at :
    (next : ℕ → ℕ) (t v : ℕ) (xs : List ℕ) (p : ℕ)
    → Absent t xs
    → Chain next p xs
    → Chain (set_at next t v) p xs
Chain-set_at next t v [] p a c = c
Chain-set_at next t v (x ∷ xs) p a c = (
  c.0,
  c.1,
  rw (set_at_ne next {i = t} {j = x} v a.0) (Chain-set_at next t v xs (next x) a.1 c.2),
)

last_of_ne : (t x : ℕ) (xs : List ℕ) → Absent t (x ∷ xs) → last_of x xs ≢ t
last_of_ne t x [] a = a.0
last_of_ne t x (y ∷ ys) a = last_of_ne t y ys a.1

last_of_some :
    (next : ℕ → ℕ) (x : ℕ) (xs : List ℕ) (p : ℕ) → Chain next p (x ∷ xs) → last_of x xs ≢ 0
last_of_some next x [] p c = c.1
last_of_some next x (y ∷ ys) p c = last_of_some next y ys (next x) c.2

last_of_app : (p y : ℕ) (xs ys : List ℕ) → last_of p (xs ++ y ∷ ys) ≡ last_of y ys
last_of_app p y [] ys = refl
last_of_app p y (x ∷ xs) ys = last_of_app x y xs ys

front-Absent : (t : ℕ) (xs ys : List ℕ) → Absent t (xs ++ ys) → Absent t xs
front-Absent t [] ys a = tt
front-Absent t (x ∷ xs) ys a = (a.0, front-Absent t xs ys a.1)

-- The last of the first list is none of the second.
last_of-Absent : (x : ℕ) (xs ys : List ℕ) → Distinct (x ∷ xs ++ ys) → Absent (last_of x xs) ys
last_of-Absent x [] ys d = d.0
last_of-Absent x (y ∷ xs) ys d = last_of-Absent y xs ys d.1

Chain-app :
    (next : ℕ → ℕ) (v x : ℕ) (xs ys : List ℕ) (p : ℕ)
    → Distinct (x ∷ xs ++ ys)
    → Chain next p (x ∷ xs)
    → Chain next v ys
    → Chain (set_at next (last_of x xs) v) p (x ∷ xs ++ ys)
Chain-app next v x [] ys p d c e =
    (c.0, c.1, rw (set_at_self next x v) (Chain-set_at next x v ys v d.0 e))
Chain-app next v x (y ∷ xs) ys p d c e =
    let l = last_of y xs in
    let apart : x ≢ l = λ h. last_of_ne x y xs (front-Absent x (y ∷ xs) ys d.0) (sym h) in
    (
      c.0,
      c.1,
      rw (set_at_ne next {i = l} {j = x} v apart) (Chain-app next v y xs ys (next x) d.1 c.2 e),
    )

zero_test : (n : ℕ) → n ≡ 0 → (n == 0) ≡ true
zero_test n h = (==_iff n 0).1 h

ne_test : (n : ℕ) → n ≢ 0 → (n == 0) ≡ false
ne_test n h = ground arith

app_nil : (xs : List ℕ) → xs ++ [] ≡ xs
app_nil [] = refl
app_nil (x ∷ xs) = ap (λ l. x ∷ l) (app_nil xs)

-- The branches of the operations.
splice_nothing :
    (next : ℕ → ℕ) (n head : AioList) → n.head ≡ 0 → aio_list_splice next n head ≡ (next, n, head)
unfolding aio_list_splice
splice_nothing next n head e = simp (zero_test n.head e) refl

splice_first :
    (next : ℕ → ℕ) (n head : AioList)
    → n.head ≢ 0
    → head.tail ≡ 0
    → aio_list_splice next n head ≡ (next, aio_list_init, n)
unfolding aio_list_splice
splice_first next n head e f = simp (ne_test n.head e, zero_test head.tail f) refl

splice_behind :
    (next : ℕ → ℕ) (n head : AioList)
    → n.head ≢ 0
    → head.tail ≢ 0
    → aio_list_splice next n head
      ≡ (set_at next head.tail n.head, aio_list_init, record head { tail = n.tail })
unfolding aio_list_splice
splice_behind next n head e f = simp (ne_test n.head e, ne_test head.tail f) refl

add_behind :
    (next : ℕ → ℕ) (al : AioList) (io : ℕ)
    → al.tail ≢ 0
    → aio_list_add next al io ≡ (set_at (set_at next io 0) al.tail io, record al { tail = io })
unfolding aio_list_add
add_behind next al io e = simp (ne_test al.tail e) refl

some_head :
    (next : ℕ → ℕ) (x : ℕ) (xs : List ℕ) (al : AioList) → IsList next al (x ∷ xs) → al.head ≢ 0
some_head next x xs al h = λ z. h.0.1 (sym h.0.0 ∙ z)

some_tail :
    (next : ℕ → ℕ) (x : ℕ) (xs : List ℕ) (al : AioList) → IsList next al (x ∷ xs) → al.tail ≢ 0
some_tail next x xs al h = λ z. last_of_some next x xs al.head h.0 (sym h.1 ∙ z)

abbrev Spliced : List ℕ → (ℕ → ℕ) × AioList × AioList → Type 0
Spliced all (next, n, head) = IsList next head all × IsList next n []

-- Splicing two lists without a request in common gives `head` the requests of `n` behind its own,
-- in their order, and leaves `n` empty.
pub aio_list_splice-IsList :
    (next : ℕ → ℕ) (n head : AioList) (xs ys : List ℕ)
    → Distinct (xs ++ ys)
    → IsList next head xs
    → IsList next n ys
    → let (next', n', head') = aio_list_splice next n head in
      IsList next' head' (xs ++ ys) × IsList next' n' []
aio_list_splice-IsList next n head xs [] d h m =
    subst (Spliced (xs ++ [])) (sym (splice_nothing next n head m.0))
      (subst (IsList next head) (sym (app_nil xs)) h, m)
aio_list_splice-IsList next n head [] (y ∷ ys) d h m =
    subst (Spliced (y ∷ ys)) (sym (splice_first next n head (some_head next y ys n m) h.1))
      (m, (refl, refl))
aio_list_splice-IsList next n head (x ∷ xs) (y ∷ ys) d h m =
    let joined : Chain (set_at next head.tail n.head) head.head (x ∷ xs ++ y ∷ ys) =
      subst (λ t. Chain (set_at next t n.head) head.head (x ∷ xs ++ y ∷ ys)) (sym h.1)
        (Chain-app next n.head x xs (y ∷ ys) head.head d h.0 m.0) in
    let eq = splice_behind next n head (some_head next y ys n m) (some_tail next x xs head h) in
    subst (Spliced (x ∷ xs ++ y ∷ ys)) (sym eq)
      ((joined, m.1 ∙ sym (last_of_app x y xs ys)), (refl, refl))

end_ne : (x : ℕ) (xs : List ℕ) (io : ℕ) → Absent x (xs ++ io ∷ []) → io ≢ x
end_ne x [] io a = a.0
end_ne x (y ∷ ys) io a = end_ne x ys io a.1

Distinct-Absent : (xs : List ℕ) (io : ℕ) → Distinct (xs ++ io ∷ []) → Absent io xs
Distinct-Absent [] io d = tt
Distinct-Absent (x ∷ xs) io d = (λ e. end_ne x xs io d.0 (sym e), Distinct-Absent xs io d.1)

-- Adding a request that is not in the list puts it at the end.
pub aio_list_add-IsList :
    (next : ℕ → ℕ) (al : AioList) (xs : List ℕ) (io : ℕ)
    → io ≢ 0
    → Distinct (xs ++ io ∷ [])
    → IsList next al xs
    → let (next', al') = aio_list_add next al io in IsList next' al' (xs ++ io ∷ [])
unfolding aio_list_add
aio_list_add-IsList next al [] io some_io d h =
    simp (zero_test al.tail h.1) ((refl, some_io, set_at_self next io 0), refl)
aio_list_add-IsList next al (x ∷ xs) io some_io d h =
    let next1 = set_at next io 0 in
    let old : Chain next1 al.head (x ∷ xs) =
      Chain-set_at next io 0 (x ∷ xs) al.head (Distinct-Absent (x ∷ xs) io d) h.0 in
    let new : Chain next1 io (io ∷ []) = (refl, some_io, set_at_self next io 0) in
    let joined : Chain (set_at next1 al.tail io) al.head (x ∷ xs ++ io ∷ []) =
      subst (λ t. Chain (set_at next1 t io) al.head (x ∷ xs ++ io ∷ [])) (sym h.1)
        (Chain-app next1 io x xs (io ∷ []) al.head d old new) in
    let eq = add_behind next al io (some_tail next x xs al h) in
    subst (λ (r : (ℕ → ℕ) × AioList). IsList r.0 r.1 (x ∷ xs ++ io ∷ [])) (sym eq)
      (joined, sym (last_of_app x io xs []))

pop_last :
    (next : ℕ → ℕ) (al : AioList)
    → al.head ≢ 0
    → next al.head ≡ 0
    → aio_list_pop next al
      ≡ (al.head, set_at next al.head 0, record { head = next al.head; tail = 0 })
unfolding aio_list_pop
pop_last next al e f = simp (ne_test al.head e, zero_test (next al.head) f) refl

pop_first :
    (next : ℕ → ℕ) (al : AioList)
    → al.head ≢ 0
    → next al.head ≢ 0
    → aio_list_pop next al ≡ (al.head, set_at next al.head 0, record al { head = next al.head })
unfolding aio_list_pop
pop_first next al e f = simp (ne_test al.head e, ne_test (next al.head) f) refl

abbrev Popped : AioList → List ℕ → ℕ × (ℕ → ℕ) × AioList → Type 0
Popped al xs (io, next, al') =
    ((io ≡ 0) × (xs ≡ []) × (al' ≡ al))
    ⊎ ((rest : List ℕ) × (xs ≡ io ∷ rest) × IsList next al' rest)

-- An empty list gives NULL and stays as it is; another gives its first request and keeps the rest.
pub aio_list_pop-IsList :
    (next : ℕ → ℕ) (al : AioList) (xs : List ℕ)
    → Distinct xs
    → IsList next al xs
    → let (io, next', al') = aio_list_pop next al in
      ((io ≡ 0) × (xs ≡ []) × (al' ≡ al))
      ⊎ ((rest : List ℕ) × (xs ≡ io ∷ rest) × IsList next' al' rest)
unfolding aio_list_pop
aio_list_pop-IsList next al [] d h = simp (zero_test al.head h.0) (inl (h.0, refl, refl))
aio_list_pop-IsList next al (x ∷ []) d h =
    let after : next al.head ≡ 0 = rw h.0.0 h.0.2 in
    let eq = pop_last next al (some_head next x [] al h) after in
    subst (Popped al (x ∷ [])) (sym eq) (inr ([], ap (λ i. i ∷ []) (sym h.0.0), (after, refl)))
aio_list_pop-IsList next al (x ∷ y ∷ ys) d h =
    let after : next al.head ≡ next x = ap next h.0.0 in
    let some_next : next al.head ≢ 0 = λ z. h.0.2.1 (sym h.0.2.0 ∙ sym after ∙ z) in
    let eq = pop_first next al (some_head next x (y ∷ ys) al h) some_next in
    let kept : Chain (set_at next x 0) (next x) (y ∷ ys) =
      Chain-set_at next x 0 (y ∷ ys) (next x) d.0 h.0.2 in
    let rest : Chain (set_at next al.head 0) (next al.head) (y ∷ ys) =
      subst (λ t. Chain (set_at next t 0) (next t) (y ∷ ys)) (sym h.0.0) kept in
    subst (Popped al (x ∷ y ∷ ys)) (sym eq)
      (inr (y ∷ ys, ap (λ i. i ∷ y ∷ ys) (sym h.0.0), (rest, h.1)))
