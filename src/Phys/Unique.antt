-- ===== src/Phys/Unique.antt =====
-- Any history of `allocate_frame` and `deallocate_frame`: no frame has two owners at once.
use helium_os.Prelude.{
  ℕ, ◌%◌, ◌≡◌, ◌≢◌, inl, inr, refl, true, none, some, List, [], ◌∷◌, All, ◌==◌, if◌then◌else◌,
  arith, ok, Bool-cases,
}
use helium_os.Platform.{Align}
use helium_os.Phys.{Segment, Allocator, allocate_frame, deallocate_frame}
use helium_os.Phys.Valid.{frame_used, IsValid}
use helium_os.Phys.Frames.{Allocated, here, there, allocate_in-cases}
use helium_os.Phys.Free.{allocate_frame_correct}
use helium_os.Phys.Release.{deallocate_frame_correct}

-- The allocator with the frames that were given out and not yet taken back.
pub record Ledger : Type 0 where
  pub allocator : Allocator
  pub live : List ℕ

unfoldable pub remove : ℕ → List ℕ → List ℕ
remove f [] = []
remove f (g ∷ gs) = if f == g then remove f gs else g ∷ remove f gs

abbrev pub Distinct : List ℕ → Type 0
Distinct [] = Unit {0}
Distinct (f ∷ fs) = All (λ g. f ≢ g) fs × Distinct fs

module _ (x : Align) where
  -- One call: it gives a frame, has none, or takes one back.
  pub data Step : Ledger → Ledger → Type 0 where
    gives :
        {o : Ledger} {frame : ℕ} {a : Allocator}
        → allocate_frame x o.allocator ≡ ok (some frame, a)
        → Step o (record { allocator = a; live = frame ∷ o.live })
    refuses :
        {o : Ledger} {a : Allocator}
        → allocate_frame x o.allocator ≡ ok (none, a)
        → Step o (record { allocator = a; live = o.live })
    takes :
        {o : Ledger} (frame : ℕ) {a : Allocator}
        → frame % 0x1000 ≡ 0
        → deallocate_frame o.allocator frame ≡ ok a
        → Step o (record { allocator = a; live = remove frame o.live })

  pub data Reach (o : Ledger) : Ledger → Type 0 where
    start : Reach o o
    next : {p q : Ledger} → Reach o p → Step p q → Reach o q

  -- The segments are well formed, and the frames that are out are whole, marked and distinct.
  pub record Inv (o : Ledger) : Type 0 where
    pub valid : IsValid x o.allocator.segments
    pub whole : All (λ f. f % 0x1000 ≡ 0) o.live
    pub used : All (λ f. frame_used o.allocator.segments f ≡ true) o.live
    pub distinct : Distinct o.live

  Allocated-aligned :
      {ss ss' : List Segment} {frame : ℕ}
      → IsValid x ss
      → Allocated ss frame ss'
      → frame % 0x1000 ≡ 0
  Allocated-aligned v (here p) = omega (arith, p.start, v.0.aligned)
  Allocated-aligned v (there a) = Allocated-aligned v.2 a

  pub allocate_frame-aligned :
      (a : Allocator) {a' : Allocator} {frame : ℕ}
      → IsValid x a.segments
      → allocate_frame x a ≡ ok (some frame, a')
      → frame % 0x1000 ≡ 0
  unfolding allocate_frame
  allocate_frame-aligned a {a'} {frame} v h = elim (allocate_in-cases x a.segments v) [
    | inl (e, full) ↦ absurd (ground (arith, e))
    | inr (f, ss', e, al) ↦
        let given : frame ≡ f = ground (arith, e) in rw given (Allocated-aligned v al)
  ]

  still_used :
      (a : Allocator) {a' : Allocator} {frame : ℕ} (fs : List ℕ)
      → IsValid x a.segments
      → allocate_frame x a ≡ ok (some frame, a')
      → All (λ f. f % 0x1000 ≡ 0) fs
      → All (λ f. frame_used a.segments f ≡ true) fs
      → All (λ f. frame_used a'.segments f ≡ true) fs × All (λ f. frame ≢ f) fs
  still_used a [] v h w u = (tt, tt)
  still_used a {a'} {frame} (f ∷ fs) v h w u =
      let rest = still_used a fs v h w.1 u.1 in
      (
        (ground (arith, allocate_frame_correct x a f v w.0), rest.0),
        (ground (arith, allocate_frame_correct x a f v w.0), rest.1),
      )

  after_refusal :
      (a : Allocator) {a' : Allocator}
      → IsValid x a.segments
      → allocate_frame x a ≡ ok (none, a')
      → a' ≡ a
  after_refusal a v h = ground (arith, allocate_frame_correct x a 0 v refl)

  pub after_gift :
      (a : Allocator) {a' : Allocator} {frame : ℕ}
      → IsValid x a.segments
      → allocate_frame x a ≡ ok (some frame, a')
      → IsValid x a'.segments
  after_gift a {a'} v h = elim (allocate_frame_correct x a 0 v refl) [
    | inl (e, u) ↦ absurd (ground (arith, e))
    | inr (f, b, e, free, u, w) ↦ let same : a' ≡ b = ground (arith, e) in rw same w
  ]

  after_taking :
      (a : Allocator) {a' : Allocator} (frame : ℕ)
      → IsValid x a.segments
      → frame % 0x1000 ≡ 0
      → deallocate_frame a frame ≡ ok a'
      → IsValid x a'.segments
  after_taking a {a'} frame v w h = elim (deallocate_frame_correct x a frame 0 v w refl) [
    | inl (e, e') ↦ let same : a' ≡ a = ground (arith, e') in rw same v
    | inr (s, b, e, e', u, v') ↦ let same : a' ≡ b = ground (arith, e') in rw same v'
  ]

  used_but :
      (a : Allocator) {a' : Allocator} (frame g : ℕ)
      → IsValid x a.segments
      → frame % 0x1000 ≡ 0
      → g % 0x1000 ≡ 0
      → deallocate_frame a frame ≡ ok a'
      → frame ≢ g
      → frame_used a.segments g ≡ true
      → frame_used a'.segments g ≡ true
  used_but a {a'} frame g v w wg h ne u = elim (deallocate_frame_correct x a frame g v w wg) [
    | inl (e, e') ↦ let same : a' ≡ a = ground (arith, e') in rw same u
    | inr (s, b, e, e', r, v') ↦
        let same : a' ≡ b = ground (arith, e') in rw same (rw r (ground arith))
  ]

  All-remove : (P : ℕ → Type 0) (frame : ℕ) (fs : List ℕ) → All P fs → All P (remove frame fs)
  unfolding remove
  All-remove P frame [] p = tt
  All-remove P frame (f ∷ fs) p = elim (Bool-cases (frame == f)) [
    | inl e ↦ rw e (All-remove P frame fs p.1)
    | inr e ↦ rw e (p.0, All-remove P frame fs p.1)
  ]

  Distinct-remove : (frame : ℕ) (fs : List ℕ) → Distinct fs → Distinct (remove frame fs)
  unfolding remove
  Distinct-remove frame [] d = tt
  Distinct-remove frame (f ∷ fs) d = elim (Bool-cases (frame == f)) [
    | inl e ↦ rw e (Distinct-remove frame fs d.1)
    | inr e ↦ rw e (All-remove (λ g. f ≢ g) frame fs d.0, Distinct-remove frame fs d.1)
  ]

  used-remove :
      (a : Allocator) {a' : Allocator} (frame : ℕ) (fs : List ℕ)
      → IsValid x a.segments
      → frame % 0x1000 ≡ 0
      → deallocate_frame a frame ≡ ok a'
      → All (λ f. f % 0x1000 ≡ 0) fs
      → All (λ f. frame_used a.segments f ≡ true) fs
      → All (λ f. frame_used a'.segments f ≡ true) (remove frame fs)
  unfolding remove
  used-remove a frame [] v w h ws us = tt
  used-remove a frame (f ∷ fs) v w h ws us = elim (Bool-cases (frame == f)) [
    | inl e ↦ rw e (used-remove a frame fs v w h ws.1 us.1)
    | inr e ↦
        rw e (
          used_but a frame f v w ws.0 h (ground arith) us.0,
          used-remove a frame fs v w h ws.1 us.1,
        )
  ]

  gift_used :
      (a : Allocator) {a' : Allocator} {frame : ℕ}
      → IsValid x a.segments
      → frame % 0x1000 ≡ 0
      → allocate_frame x a ≡ ok (some frame, a')
      → frame_used a'.segments frame ≡ true
  gift_used a {a'} {frame} v w h = ground (arith, allocate_frame_correct x a frame v w)

  pub Step-Inv : {o p : Ledger} → Step o p → Inv o → Inv p
  Step-Inv (gives {o = o} e) i =
      let whole = allocate_frame-aligned o.allocator i.valid e in
      let kept = still_used o.allocator o.live i.valid e i.whole i.used in
      record {
        valid = after_gift o.allocator i.valid e;
        whole = (whole, i.whole);
        used = (gift_used o.allocator i.valid whole e, kept.0);
        distinct = (kept.1, i.distinct);
      }
  Step-Inv (refuses {o = o} e) i =
      let same = after_refusal o.allocator i.valid e in
      record {
        valid = rw same i.valid;
        whole = i.whole;
        used = rw same i.used;
        distinct = i.distinct;
      }
  Step-Inv (takes {o = o} frame w e) i = record {
    valid = after_taking o.allocator frame i.valid w e;
    whole = All-remove (λ f. f % 0x1000 ≡ 0) frame o.live i.whole;
    used = used-remove o.allocator frame o.live i.valid w e i.whole i.used;
    distinct = Distinct-remove frame o.live i.distinct;
  }

  pub Reach-Inv : {o p : Ledger} → Inv o → Reach o p → Inv p
  Reach-Inv i start = i
  Reach-Inv i (next r s) = Step-Inv s (Reach-Inv i r)

  -- From well-formed segments with no frame given out, after any sequence of allocations and
  -- deallocations of whole frames, the frames that are out are pairwise distinct.
  pub Reach-Distinct :
      (a : Allocator) {o : Ledger}
      → IsValid x a.segments
      → Reach (record { allocator = a; live = [] }) o
      → Distinct o.live
  Reach-Distinct a v r =
      (Reach-Inv (record { valid = v; whole = tt; used = tt; distinct = tt }) r).distinct
