-- ===== src/Log/Growing.antt =====
-- A list of segments of which the last holds a record more, or to which one is added.
use mathlib.Core.List.{append-nil}
use aphros.Base.{
  ℕ, ◌+◌, ◌≤◌, ◌<◌, ◌≡◌, ◌≢◌, refl, sym, ap, ◌∙◌, subst, some, List, [], ◌∷◌, ◌++◌, arith, length,
  length-append,
}
use aphros.Api.{Record, Codec}
use aphros.Disk.{Disk}
use aphros.Segment.{Segment}
use aphros.Segment.Contents.{Holds, Holds-kept, Keeps}
use aphros.Log.{last?, set_last}
use aphros.Log.Contents.{SameShapes, at_disk, HoldsAll, Chained, Avoids, AllApart, all_records}

-- The records with one more in the last list.
abbrev pub add_last : List (List Record) → Record → List (List Record)
add_last [] r = []
add_last (rs ∷ []) r = (rs ++ (r ∷ [])) ∷ []
add_last (rs ∷ ts ∷ rss) r = rs ∷ add_last (ts ∷ rss) r

-- The last segment and what it holds.
pub record Last (k : Codec) (d : Disk) (n : ℕ) (ss : List Segment) (rss : List (List Record))
    (s : Segment) : Type 0 where
  pub records : List Record
  pub last_records : last? rss ≡ some records
  pub holds : Holds k (at_disk s d) records
  pub ends : s.next_offset ≡ n + length (all_records rss)

pub Last-Last :
    (k : Codec) (d : Disk) (n : ℕ) (ss : List Segment) (rss : List (List Record)) (s : Segment)
    → HoldsAll k d ss rss
    → Chained n ss
    → last? ss ≡ some s
    → Last k d n ss rss s
Last-Last k d n [] rss s h c found = cc
Last-Last k d n (t ∷ ss) [] s h c found = absurd h
Last-Last k d n (t ∷ []) (rs ∷ []) s (h, hs) (c, cs) found =
    let same : t ≡ s = cc in
    record {
      records = rs;
      last_records = refl;
      holds = subst (λ u. Holds k (at_disk u d) rs) same h;
      ends = omega (
        arith,
        ap (λ u. u.next_offset) same,
        h.next,
        c,
        ap (length {A = Record}) (append-nil rs),
      );
    }
Last-Last k d n (t ∷ []) (rs ∷ (ts ∷ rss)) s (h, hs) (c, cs) found = absurd hs
Last-Last k d n (t ∷ (u ∷ ss)) (rs ∷ []) s (h, hs) (c, cs) found = absurd hs
Last-Last k d n (t ∷ (u ∷ ss)) (rs ∷ (ts ∷ rss)) s (h, hs) (c, cs) found =
    let l = Last-Last k d t.next_offset (u ∷ ss) (ts ∷ rss) s hs cs found in
    record {
      records = l.records;
      last_records = l.last_records;
      holds = l.holds;
      ends = omega (arith, l.ends, h.next, c, length-append {0} rs (all_records (ts ∷ rss)));
    }

Avoids-last :
    (i : ℕ) (ss : List Segment) (s : Segment)
    → Avoids i ss
    → last? ss ≡ some s
    → (i ≢ s.store.ino) × (i ≢ s.index.ino)
Avoids-last i [] s a found = cc
Avoids-last i (t ∷ []) s (a, b, _) found =
    let same : t ≡ s = cc in
    (λ p. a (p ∙ ap (λ u. u.store.ino) (sym same)), λ p. b (p ∙ ap (λ u. u.index.ino) (sym same)))
Avoids-last i (t ∷ (u ∷ ss)) s (_, _, as_) found = Avoids-last i (u ∷ ss) s as_ found

Avoids-set_last :
    (i : ℕ) (ss : List Segment) (s s' : Segment)
    → Avoids i ss
    → last? ss ≡ some s
    → s'.store.ino ≡ s.store.ino
    → s'.index.ino ≡ s.index.ino
    → Avoids i (set_last ss s')
Avoids-set_last i [] s s' a found e₁ e₂ = tt
Avoids-set_last i (t ∷ []) s s' a found e₁ e₂ =
    let (p, q) = Avoids-last i (t ∷ []) s a found in (λ e. p (e ∙ e₁), λ e. q (e ∙ e₂), tt)
Avoids-set_last i (t ∷ (u ∷ ss)) s s' (a, b, as_) found e₁ e₂ =
    (a, b, Avoids-set_last i (u ∷ ss) s s' as_ found e₁ e₂)

-- The last segment replaced by one that holds one record more.
pub grown_last :
    (k : Codec) (n : ℕ) (ss : List Segment) (rss : List (List Record)) (s s' : Segment)
    (d d' : Disk) (rs : List Record) (r : Record)
    → HoldsAll k d ss rss
    → Chained n ss
    → AllApart ss
    → last? ss ≡ some s
    → last? rss ≡ some rs
    → Holds k (at_disk s' d') (rs ++ (r ∷ []))
    → Keeps (at_disk s d) (at_disk s' d')
    → HoldsAll k d' (set_last ss s') (add_last rss r)
      × Chained n (set_last ss s')
      × AllApart (set_last ss s')
grown_last k n [] rss s s' d d' rs r h c a found found' holds keeps = cc
grown_last k n (t ∷ ss) [] s s' d d' rs r h c a found found' holds keeps = absurd h
grown_last k n (t ∷ []) (ps ∷ []) s s' d d' rs r (h, hs) (c, cs) a found found' holds keeps =
    let same : t ≡ s = cc in
    let records_same : ps ≡ rs = cc in
    (
      (subst (λ qs. Holds k (at_disk s' d') (qs ++ (r ∷ []))) (sym records_same) holds, tt),
      (keeps.base_same ∙ ap (λ u. u.base_offset) (sym same) ∙ c, tt),
      (tt, tt, tt),
    )
grown_last k n (t ∷ []) (ps ∷ (ts ∷ rss)) s s' d d' rs r (h, hs) c a found found' holds keeps =
    absurd hs
grown_last k n (t ∷ (u ∷ ss)) (ps ∷ []) s s' d d' rs r (h, hs) c a found found' holds keeps =
    absurd hs
grown_last k n (t ∷ (u ∷ ss)) (ps ∷ (ts ∷ rss)) s s' d d' rs r (h, hs) (c, cs) (a₁, a₂, as_) found
      found' holds keeps =
    let (hs', cs', as') =
      grown_last k t.next_offset (u ∷ ss) (ts ∷ rss) s s' d d' rs r hs cs as_ found found' holds
        keeps in
    let (p₁, q₁) = Avoids-last t.store.ino (u ∷ ss) s a₁ found in
    let (p₂, q₂) = Avoids-last t.index.ino (u ∷ ss) s a₂ found in
    (
      (
        Holds-kept k t ps d d'
            (keeps.touches.others t.store.ino (λ e. p₁ (sym e)) (λ e. q₁ (sym e)))
            (keeps.touches.others t.index.ino (λ e. p₂ (sym e)) (λ e. q₂ (sym e))) h,
        hs',
      ),
      (c, cs'),
      (
        Avoids-set_last t.store.ino (u ∷ ss) s s' a₁ found keeps.store_ino_same
            keeps.index_ino_same,
        Avoids-set_last t.index.ino (u ∷ ss) s s' a₂ found keeps.store_ino_same
            keeps.index_ino_same,
        as',
      ),
    )

-- The segments use files below `m` alone.
abbrev pub Below : ℕ → List Segment → Type 0
Below m [] = Unit
Below m (s ∷ ss) = (s.store.ino < m) × (s.index.ino < m) × Below m ss

pub Below-same : (m : ℕ) (ss ss' : List Segment) → SameShapes ss ss' → Below m ss → Below m ss'
Below-same m [] [] h b = tt
Below-same m [] (s ∷ ss) h b = absurd h
Below-same m (s ∷ ss) [] h b = absurd h
Below-same m (s ∷ ss) (s' ∷ ss') (h, hs) (b₁, b₂, bs) =
    (omega (arith, h.store_ino_same), omega (arith, h.index_ino_same), Below-same m ss ss' hs bs)

pub Below-set_last :
    (m : ℕ) (ss : List Segment) (s s' : Segment)
    → Below m ss
    → last? ss ≡ some s
    → s'.store.ino ≡ s.store.ino
    → s'.index.ino ≡ s.index.ino
    → Below m (set_last ss s')
Below-set_last m [] s s' b found e₁ e₂ = tt
Below-set_last m (t ∷ []) s s' (b₁, b₂, _) found e₁ e₂ =
    let same : t ≡ s = cc in
    (
      omega (arith, b₁, e₁, ap (λ u. u.store.ino) same),
      omega (arith, b₂, e₂, ap (λ u. u.index.ino) same),
      tt,
    )
Below-set_last m (t ∷ (u ∷ ss)) s s' (b₁, b₂, bs) found e₁ e₂ =
    (b₁, b₂, Below-set_last m (u ∷ ss) s s' bs found e₁ e₂)

pub Below-snoc :
    (m m' : ℕ) (ss : List Segment) (s : Segment)
    → Below m ss
    → m ≤ m'
    → s.store.ino < m'
    → s.index.ino < m'
    → Below m' (ss ++ (s ∷ []))
Below-snoc m m' [] s b le b₁ b₂ = (b₁, b₂, tt)
Below-snoc m m' (t ∷ ss) s (c₁, c₂, cs) le b₁ b₂ =
    (omega arith, omega arith, Below-snoc m m' ss s cs le b₁ b₂)

pub last?-snoc {ℓ} : {A : Type ℓ} (xs : List A) (y : A) → last? (xs ++ (y ∷ [])) ≡ some y
last?-snoc [] y = refl
last?-snoc (x ∷ []) y = refl
last?-snoc (x ∷ (x' ∷ xs)) y = last?-snoc (x' ∷ xs) y

pub all_records-snoc : (rss : List (List Record)) → all_records (rss ++ ([] ∷ [])) ≡ all_records rss
all_records-snoc [] = refl
all_records-snoc (rs ∷ rss) = ap (λ l. rs ++ l) (all_records-snoc rss)

pub add_last-snoc :
    (rss : List (List Record)) (r : Record) → add_last (rss ++ ([] ∷ [])) r ≡ rss ++ ((r ∷ []) ∷ [])
add_last-snoc [] r = refl
add_last-snoc (rs ∷ []) r = refl
add_last-snoc (rs ∷ (ts ∷ rss)) r = ap (λ l. rs ∷ l) (add_last-snoc (ts ∷ rss) r)

Avoids-snoc :
    (i m : ℕ) (ss : List Segment) (s : Segment)
    → i < m
    → m ≤ s.store.ino
    → m ≤ s.index.ino
    → Avoids i ss
    → Avoids i (ss ++ (s ∷ []))
Avoids-snoc i m [] s below b₁ b₂ a = (λ p. absurd (omega arith), λ p. absurd (omega arith), tt)
Avoids-snoc i m (t ∷ ss) s below b₁ b₂ (a₁, a₂, as_) =
    (a₁, a₂, Avoids-snoc i m ss s below b₁ b₂ as_)

-- A new segment behind the others, on files that they do not use.
pub with_new :
    (k : Codec) (n m : ℕ) (ss : List Segment) (rss : List (List Record)) (s : Segment) (d d' : Disk)
    → HoldsAll k d ss rss
    → Chained n ss
    → AllApart ss
    → Below m ss
    → ((l : ℕ) → l < m → d'.node l ≡ d.node l)
    → m ≤ s.store.ino
    → m ≤ s.index.ino
    → s.base_offset ≡ n + length (all_records rss)
    → Holds k (at_disk s d') []
    → HoldsAll k d' (ss ++ (s ∷ [])) (rss ++ ([] ∷ []))
      × Chained n (ss ++ (s ∷ []))
      × AllApart (ss ++ (s ∷ []))
with_new k n m [] [] s d d' h c a b same b₁ b₂ base new =
    ((new, tt), (omega (arith, base), tt), (tt, tt, tt))
with_new k n m [] (rs ∷ rss) s d d' h c a b same b₁ b₂ base new = absurd h
with_new k n m (t ∷ ss) [] s d d' h c a b same b₁ b₂ base new = absurd h
with_new k n m (t ∷ ss) (rs ∷ rss) s d d' (h, hs) (c, cs) (a₁, a₂, as_) (t₁, t₂, ts) same b₁ b₂ base
      new =
    let starts : s.base_offset ≡ t.next_offset + length (all_records rss) =
      omega (arith, base, h.next, c, length-append {0} rs (all_records rss)) in
    let (hs', cs', as') =
      with_new k t.next_offset m ss rss s d d' hs cs as_ ts same b₁ b₂ starts new in
    (
      (Holds-kept k t rs d d' (same t.store.ino t₁) (same t.index.ino t₂) h, hs'),
      (c, cs'),
      (Avoids-snoc t.store.ino m ss s t₁ b₁ b₂ a₁, Avoids-snoc t.index.ino m ss s t₂ b₁ b₂ a₂, as'),
    )
