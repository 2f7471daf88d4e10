-- ===== src/Store/Cells.antt =====
-- Chains of nodes: the cells of a queue in order, each with its address and its item.
use mathlib.Core.Bool.{or_assoc}
use libibtl.Base.{
  ◌≡◌, refl, ◌≢◌, Bool, true, false, ◌||◌, Option, none, some, List, [], ◌∷◌, ◌++◌, arith, ◌==◌,
}
use libibtl.Store.{Ptr, null, Node, node, Heap, write, ok, load, set_next, free}

abbrev pub Cells : Type 0
Cells = List (Ptr × Ptr)

-- the address that a pointer to the first cell holds
abbrev pub first : Cells → Ptr
first [] = null
first ((a, d) ∷ cs) = a

-- the address of the last cell
abbrev pub last : Cells → Ptr
last [] = null
last ((a, d) ∷ []) = a
last (c ∷ c' ∷ cs) = last (c' ∷ cs)

abbrev pub has : Ptr → Cells → Bool
has a [] = false
has a ((b, d) ∷ cs) = (a == b) || has a cs

abbrev pub items : Cells → List Ptr
items [] = []
items ((a, d) ∷ cs) = d ∷ items cs

-- every cell is a node whose `next` is the following cell, and no address occurs twice
abbrev pub Linked : Heap → Cells → Type 0
Linked h [] = Unit
Linked h ((a, d) ∷ cs) =
    (a ≢ null) × (h a ≡ some (node (first cs) d)) × (has a cs ≡ false) × Linked h cs

-- `g` agrees with `h` outside the cells
abbrev pub SameOutside : Cells → Heap → Heap → Type 0
SameOutside cs h g = (a : Ptr) → has a cs ≡ false → g a ≡ h a

pub not_null : (a : Ptr) → a ≢ null → (a == null) ≡ false
not_null a h = ground arith

-- two different addresses
pub ne-has : (a b : Ptr) (cs : Cells) → has a cs ≡ false → has b cs ≡ true → (a == b) ≡ false
ne-has a b [] i o = cc
ne-has a b ((c, d) ∷ cs) i o = ground (arith, ne-has a b cs)

-- the same with the sides exchanged
pub ne-has_out : (b a : Ptr) (cs : Cells) → has b cs ≡ false → has a cs ≡ true → (a == b) ≡ false
ne-has_out b a cs o i = ground (arith, ne-has b a cs)

module _ (h : Heap) {a n d : Ptr} (nonnull : a ≢ null) (at : h a ≡ some (node n d)) where
  pub load-ok : load a h ≡ ok (node n d) h
  unfolding load
  load-ok = rw (not_null a nonnull, at)

  pub set_next-ok : (r : Ptr) → set_next a r h ≡ ok tt (write h a (some (node r d)))
  unfolding set_next
  set_next-ok r = rw load-ok

  pub free-ok : free a h ≡ ok tt (write h a none)
  unfolding free
  free-ok = rw load-ok

pub has-append : (a : Ptr) (cs ds : Cells) → has a (cs ++ ds) ≡ (has a cs || has a ds)
has-append a [] ds = refl
has-append a (c ∷ cs) ds = rw (has-append a cs ds, or_assoc)

pub has-last : (c : Ptr × Ptr) (cs : Cells) → has (last (c ∷ cs)) (c ∷ cs) ≡ true
has-last (a, d) [] = ground arith
has-last (a, d) ((b, e) ∷ cs) = ground (arith, has-last (b, e) cs)

or_false : (x y : Bool) → (x || (y || false)) ≡ false → (x ≡ false) × (y ≡ false)
or_false x y h = ground arith

-- outside a chain with a cell added: outside the chain, and not the cell
pub not-has-snoc :
    (a : Ptr) (cs : Cells) (f d : Ptr)
    → has a (cs ++ (f, d) ∷ []) ≡ false
    → (has a cs ≡ false) × ((a == f) ≡ false)
not-has-snoc a cs f d o = or_false _ _ (rw has-append at o)

-- a chain survives a change that spares its cells
pub Linked-frame :
    (h g : Heap) (cs : Cells)
    → Linked h cs
    → ((a : Ptr) → has a cs ≡ true → g a ≡ h a)
    → Linked g cs
Linked-frame h g [] l same = l
Linked-frame h g ((a, d) ∷ cs) l same =
    (l.0, ground (arith, same a), l.2, Linked-frame h g cs l.3 (λ b i. same b (ground arith)))

pub Linked-write :
    (h : Heap) (p : Ptr) (c : Option Node) (cs : Cells)
    → Linked h cs
    → has p cs ≡ false
    → Linked (write h p c) cs
unfolding write
Linked-write h p c cs l out = Linked-frame h _ cs l (ground arith)

-- an address that is not allocated is no cell
pub has_of_none : (h : Heap) (a : Ptr) (cs : Cells) → Linked h cs → h a ≡ none → has a cs ≡ false
has_of_none h a [] l e = refl
has_of_none h a ((b, d) ∷ cs) l e = ground (arith, has_of_none h a cs)

-- the last cell's `next` set to a new last cell
pub Linked-snoc :
    (h : Heap) (c : Ptr × Ptr) (cs : Cells) (f d : Ptr)
    → Linked h (c ∷ cs)
    → f ≢ null
    → has f (c ∷ cs) ≡ false
    → (e : Ptr) × (h (last (c ∷ cs)) ≡ some (node null e))
      × (last (c ∷ cs) ≢ null)
      × (has (last (c ∷ cs)) (c ∷ cs) ≡ true)
      × Linked
          (write (write h f (some (node null d))) (last (c ∷ cs)) (some (node f e)))
          ((c ∷ cs) ++ (f, d) ∷ [])
unfolding write
Linked-snoc h (a, x) [] f d l nf out =
    (x, l.1, l.0, ground arith, ((l.0, ground arith, ground arith, (nf, ground arith, refl, tt))))
Linked-snoc h (a, x) ((b, y) ∷ cs) f d l nf out =
    let (e, at, nn, inside, rest) = Linked-snoc h (b, y) cs f d l.3 nf (ground arith) in
    let ne_f : (a == f) ≡ false = ground arith in
    let ne_b : (a == b) ≡ false = ground arith in
    let out_a : has a cs ≡ false = ground arith in
    (
      e,
      at,
      nn,
      ground arith,
      (
        l.0,
        rw (ne-has a _ ((b, y) ∷ cs) l.2 inside, ne_f) l.1,
        rw (has-append a cs ((f, d) ∷ []), ne_b, out_a, ne_f),
        rest,
      ),
    )

pub last-snoc : (cs : Cells) (f d : Ptr) → last (cs ++ (f, d) ∷ []) ≡ f
last-snoc [] f d = refl
last-snoc (c ∷ []) f d = refl
last-snoc (c ∷ c' ∷ cs) f d = last-snoc (c' ∷ cs) f d
