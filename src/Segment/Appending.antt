-- ===== src/Segment/Appending.antt =====
-- Append to a segment, when there is room and when there is none.
use mathlib.Core.Path.{subst₂}
use aphros.Base.{
  false, ℕ, zero, suc, ◌+◌, ◌-◌, ◌*◌, ◌^◌, ◌≤◌, ◌<◌, ◌≡◌, refl, sym, ap, ◌∙◌, subst, ◌⊎◌, inl, inr,
  some, List, [], ◌∷◌, ◌++◌, arith, length, length-append, get_elem?, get_elem?-lt, u32, u64,
}
use aphros.Result.{◌>>=◌, ok, err, eof, lift, >>=-ok, >>=-err}
use aphros.Api.{Record, Codec}
use aphros.Disk.Frame.{Touches-second}
use aphros.Store
use aphros.Store.{len_width, max_alloc}
use aphros.Store.Buffer.{content}
use aphros.Store.Records.{HoldsAt, HoldsAt-append, HoldsAt-framed, IsStore, framed}
use aphros.Store.Records
use aphros.Index
use aphros.Index.{entry_width}
use aphros.Index.Entries.{HasEntry}
use aphros.Index.Entries
use aphros.Segment
use aphros.Segment.{
  Env, store_env, index_env, with_store, with_index, on_store, on_index, or_bad_record, append,
  store_record, index_record, index_at,
}
use aphros.Segment.Contents.{
  Stored, Holds, Keeps, store_bytes, Keeps-trans, on_index-ok, on_index-err, on_store-ok,
  Holds-with_store, Keeps-with_store,
}

-- The record as the segment stores it.
abbrev pub at_offset : Record → ℕ → Record
at_offset r n = record r { offset = n }

-- The last record of a list, or one before it.
get_elem?-snoc :
    (rs : List Record) (x : Record) (i : ℕ) (r : Record)
    → get_elem? (rs ++ (x ∷ [])) i ≡ some r
    → (get_elem? rs i ≡ some r) ⊎ ((i ≡ length rs) × (x ≡ r))
get_elem?-snoc [] x zero r h = inr (refl, cc)
get_elem?-snoc [] x (suc i) r h = cc
get_elem?-snoc (y ∷ rs) x zero r h = inl h
get_elem?-snoc (y ∷ rs) x (suc i) r h = elim (get_elem?-snoc rs x i r h) [
  | inl old ↦ inl old
  | inr (last, same) ↦ inr (ap suc last, same)
]

-- What Append wants of the record and of the room that is left.
pub record Fits (k : Codec) (e : Env) (r : Record) (p : List ℕ) : Type 0 where
  pub encodes : k.marshal (at_offset r e.self.next_offset) ≡ some p
  pub nonempty : 0 < length p
  pub small : length p ≤ max_alloc
  pub store_room : length (store_bytes e) + length p + len_width < 2 ^ 63
  pub no_wrap : e.self.next_offset + 1 < 2 ^ 64

-- The part of Append behind the store's: an entry for the next offset.
index_record_lem :
    (k : Codec) (e : Env) (rs : List Record) (pos : ℕ) (x : Record)
    → Holds k e rs
    → (length rs + 1) * entry_width ≤ e.self.index.mapped
    → e.self.next_offset + 1 < 2 ^ 64
    → ((entries : List ℕ)
        → HasEntry entries (length rs) (length rs) pos
        → Stored k (store_bytes e) entries (length rs) x)
    → (e' : Env) × (index_record e.self.next_offset pos e ≡ (ok e.self.next_offset, e'))
      × Holds k e' (rs ++ (x ∷ []))
      × Keeps e e'
unfolding index_record index_at
index_record_lem k e rs pos x h room wraps new =
    let n = length rs in
    let relative : u32 (u64 (e.self.next_offset + 2 ^ 64 - e.self.base_offset)) ≡ n =
      omega (arith, h.no_wrap, h.next, h.index_ok.small, h.index_ok.within, h.index_ok.sized) in
    let (t, runs, index_ok, entry, others, touches, ino_same, mapped_same) =
      Entries.write-IsIndex n pos n (index_env e) h.index_ok room in
    let e₁ = with_index e t in
    let e' : Env = record e₁ {
      self = record e₁.self { next_offset = u64 (e.self.next_offset + 1) };
    } in
    let store_same : t.disk.node e.self.store.ino ≡ e.disk.node e.self.store.ino =
      touches.others e.self.store.ino (λ p. h.apart (sym p)) in
    let bytes_same : store_bytes e' ≡ store_bytes e =
      Records.content-kept e.self.store e.disk t.disk store_same in
    let count : length (rs ++ (x ∷ [])) ≡ n + 1 = omega (arith, length-append {0} rs (x ∷ [])) in
    (
      e',
      ap (λ m. index_at e.self.next_offset pos m e) relative
          ∙ >>=-ok (on_index (Index.write n pos)) _ (on_index-ok (Index.write n pos) e runs),
      record {
        store_ok = Records.IsStore-kept e.self.store e.disk t.disk store_same h.store_ok;
        bounded = subst (λ b. length b < 2 ^ 63) (sym bytes_same) h.bounded;
        index_ok = subst (Entries.IsIndex t) (sym count) index_ok;
        apart = λ p. h.apart (p ∙ ino_same);
        next = omega (arith, count, h.next);
        no_wrap = omega (arith, count, h.next);
        stored = λ i r found. elim (get_elem?-snoc rs x i r found) [
          | inl old ↦
              let was = h.stored i r old in
              subst (λ b. Stored k b (Index.file_of t).bytes i r) (sym bytes_same)
                (record {
                  position = was.position;
                  encoded = was.encoded;
                  entry = others i i was.position (get_elem?-lt rs i old) was.entry;
                  at = was.at;
                  decoded = was.decoded;
                  nonempty = was.nonempty;
                  small = was.small;
                })
          | inr (last, same) ↦
              subst₂ (λ j y. Stored k (store_bytes e') (Index.file_of t).bytes j y) (sym last) same
                (subst (λ b. Stored k b (Index.file_of t).bytes n x) (sym bytes_same)
                  (new (Index.file_of t).bytes entry))
        ];
      },
      record {
        base_same = refl;
        config_same = refl;
        store_ino_same = refl;
        index_ino_same = ino_same;
        mapped_same = mapped_same;
        touches = Touches-second e.self.store.ino touches;
      },
    )

-- The store's part of Append.
store_step :
    (k : Codec) (e : Env) (rs : List Record) (r : Record) (p : List ℕ)
    → Holds k e rs
    → Fits k e r p
    → (e' : Env) × (on_store (Store.append p) e
        ≡ (ok (length p + len_width, e.self.store.size), e'))
      × Holds k e' rs
      × Keeps e e'
      × ((entries : List ℕ)
          → HasEntry entries (length rs) (length rs) e.self.store.size
          → Stored k (store_bytes e') entries (length rs) (at_offset r e.self.next_offset))
      × (store_bytes e' ≡ store_bytes e ++ framed p)
      × (e'.self.next_offset ≡ e.self.next_offset)
store_step k e rs r p h fits =
    let (t, runs, grown, store_ok, touches, ino_same) =
      Records.append-IsStore p (store_env e) h.store_ok (omega (arith, fits.store_room)) in
    let long : length (content t) ≡ length (store_bytes e) + (length p + len_width) = omega (
      arith,
      ap (length {A = ℕ}) grown,
      length-append {0} (store_bytes e) (framed p),
      Records.length-framed p,
    ) in
    (
      with_store e t,
      on_store-ok (Store.append p) e runs,
      Holds-with_store k e t rs (framed p) h grown store_ok (omega (arith, long, fits.store_room))
          touches ino_same,
      Keeps-with_store k e t touches ino_same,
      λ entries entry. record {
        position = e.self.store.size;
        encoded = p;
        entry = entry;
        at =
            subst₂ (λ b i. HoldsAt b i p) (sym grown) (sym h.store_ok.sized)
              (HoldsAt-framed (store_bytes e) p);
        decoded = k.unmarshal-marshal (at_offset r e.self.next_offset) p fits.encodes;
        nonempty = fits.nonempty;
        small = fits.small;
      },
      grown,
      refl,
    )

-- Append of a record that fits, to a segment with room: it returns the next offset, and the segment
-- holds the record, with that offset, behind those that it held.
pub append-Holds :
    (k : Codec) (e : Env) (rs : List Record) (r : Record) (p : List ℕ)
    → Holds k e rs
    → Fits k e r p
    → (length rs + 1) * entry_width ≤ e.self.index.mapped
    → (e' : Env) × (append k r e ≡ (ok e.self.next_offset, e'))
      × Holds k e' (rs ++ (at_offset r e.self.next_offset ∷ []))
      × Keeps e e'
unfolding append store_record
append-Holds k e rs r p h fits room =
    let (e₁, runs₁, holds₁, keeps₁, new, _, next_same) = store_step k e rs r p h fits in
    let (e₂, runs₂, holds₂, keeps₂) =
      index_record_lem k e₁ rs e.self.store.size (at_offset r e.self.next_offset) holds₁
        (omega (arith, room, keeps₁.mapped_same)) (omega (arith, fits.no_wrap, next_same)) new in
    (
      e₂,
      ap (λ o. (lift (or_bad_record o) >>= store_record e.self.next_offset) e) fits.encodes
          ∙ >>=-ok (on_store (Store.append p)) _ runs₁
          ∙ ap (λ c. index_record c e.self.store.size e₁) (sym next_same)
          ∙ runs₂
          ∙ ap (λ c. (ok c, e₂)) next_same,
      holds₂,
      Keeps-trans keeps₁ keeps₂,
    )

-- Append of a record that fits, to a segment whose index is full: it returns io.EOF, and the
-- segment holds what it held, although the record's bytes are in the store.
pub append_full :
    (k : Codec) (e : Env) (rs : List Record) (r : Record) (p : List ℕ)
    → Holds k e rs
    → Fits k e r p
    → e.self.index.mapped < (length rs + 1) * entry_width
    → (e' : Env) × (append k r e ≡ (err eof, e'))
      × Holds k e' rs
      × Keeps e e'
      × (store_bytes e' ≡ store_bytes e ++ framed p)
unfolding append store_record index_record index_at
append_full k e rs r p h fits full =
    let (e₁, runs₁, holds₁, keeps₁, _, grown, _) = store_step k e rs r p h fits in
    let off = u32 (u64 (e₁.self.next_offset + 2 ^ 64 - e₁.self.base_offset)) in
    let refused =
      Entries.write_full off e.self.store.size (length rs) (index_env e₁) holds₁.index_ok
        (omega (arith, full, keeps₁.mapped_same)) in
    (
      e₁,
      ap (λ o. (lift (or_bad_record o) >>= store_record e.self.next_offset) e) fits.encodes
          ∙ >>=-ok (on_store (Store.append p)) _ runs₁
          ∙ >>=-err (on_index (Index.write off e.self.store.size)) _
              (on_index-err (Index.write off e.self.store.size) e₁ refused),
      holds₁,
      keeps₁,
      grown,
    )

-- A segment that is not full has room for an entry.
pub room_of_open :
    (k : Codec) (e : Env) (rs : List Record)
    → Holds k e rs
    → Segment.is_maxed e.self ≡ false
    → e.self.index.size + entry_width ≤ e.self.index.mapped
unfolding Segment.is_maxed
room_of_open k e rs h open_ =
    let index_open : Index.is_maxed e.self.index ≡ false = ground arith in
    Entries.room_of_open (length rs) (index_env e) h.index_ok index_open
