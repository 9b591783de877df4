-- ===== src/Segment/Closing.antt =====
-- A segment closed and opened again.
use aphros.Base.{
  ℕ, zero, suc, ◌+◌, ◌*◌, ◌^◌, ◌≤◌, ◌<◌, ◌≡◌, refl, sym, ap, ◌∙◌, subst, false, true, some, List,
  arith, length, get_elem?-lt, get_elem?-some,
}
use aphros.Result.{◌>>=◌, ok, lift, pure, >>=-ok}
use aphros.Api.{Record, Codec}
use aphros.Disk.Frame.{TouchesTwo, Touches-first, Touches-second, TouchesTwo-trans, open_file_found}
use aphros.Disk.{Disk, open_file, find_name, store_file, index_file}
use aphros.Store
use aphros.Store.{Store}
use aphros.Store.Buffer.{content}
use aphros.Store.Records.{IsStore}
use aphros.Index
use aphros.Index.{entry_width, minus_one}
use aphros.Index.Entries.{IsIndex, HasEntry}
use aphros.Index.Entries
use aphros.Segment.{
  Segment, Config, Env, store_env, index_env, with_store, with_index, on_index, next_after,
  new_segment, close,
}
use aphros.Segment.Contents.{Stored, Holds, store_bytes, on_index-ok, on_store-ok}

-- What reopening needs of the directory and of the maximum that is configured.
pub record CanReopen (e : Env) (n : ℕ) (c : Config) : Type 0 where
  pub present : e.disk.present ≡ true
  pub store_named : find_name e.disk.names (store_file e.self.base_offset) ≡ some e.self.store.ino
  pub index_named : find_name e.disk.names (index_file e.self.base_offset) ≡ some e.self.index.ino
  pub index_sound : (e.disk.node e.self.index.ino).faulty ≡ false
  pub room : n * entry_width ≤ c.max_index_bytes
  pub some_room : 0 < c.max_index_bytes
  pub small : c.max_index_bytes < 2 ^ 32

-- Close of a segment succeeds: its store's file holds the content, its index file is closed.
pub close_lem :
    (k : Codec) (e : Env) (rs : List Record)
    → Holds k e rs
    → (e.disk.node e.self.index.ino).faulty ≡ false
    → (e' : Env) × (close e ≡ (ok tt, e'))
      × ((e'.disk.node e.self.store.ino).bytes ≡ store_bytes e)
      × (e'.disk.node e.self.index.ino ≡ (Index.close (index_env e)).1.disk.node e.self.index.ino)
      × TouchesTwo e.self.store.ino e.self.index.ino e.disk e'.disk
      × (e'.self.base_offset ≡ e.self.base_offset)
unfolding close
close_lem k e rs h sound =
    let (runs₁, touches₁) = Index.Reopen.close_ok (index_env e) h.index_ok.is_open sound in
    let t₁ = (Index.close (index_env e)).1 in
    let e₁ = with_index e t₁ in
    let same = touches₁.others e.self.store.ino (λ p. h.apart (sym p)) in
    let healthy =
      (Store.Records.IsStore-kept e.self.store e.disk t₁.disk same h.store_ok).healthy in
    let (t₂, runs₂, bytes, touches₂) = Store.Reopen.close_lem (store_env e₁) healthy in
    (
      with_store e₁ t₂,
      >>=-ok (on_index Index.close) _ (on_index-ok Index.close e runs₁)
          ∙ on_store-ok Store.close e₁ runs₂,
      bytes ∙ Store.Records.content-kept e.self.store e.disk t₁.disk same,
      touches₂.others e.self.index.ino h.apart,
      TouchesTwo-trans (Touches-second e.self.store.ino touches₁)
          (Touches-first e.self.index.ino touches₂),
      refl,
    )

-- What Read(-1) of an index returns gives the next offset, where entry `i` is for the offset `i`.
pub next_after_lem :
    (base n : ℕ) (t : Index.Env)
    → IsIndex t n
    → ((i : ℕ) → i < n → (pos : ℕ) × HasEntry (Index.file_of t).bytes i i pos × (pos < 2 ^ 64))
    → base + n < 2 ^ 64
    → next_after base (Index.read minus_one t).0 ≡ ok (base + n)
next_after_lem base zero t h entries fits =
    ap (λ r. next_after base r.0) (Entries.read_none minus_one t h) ∙ ap ok (omega arith)
next_after_lem base (suc m) t h entries fits =
    let (pos, entry, small) = entries m (omega arith) in
    ap (λ r. next_after base r.0)
      (Entries.read_last m pos m t h entry (omega (arith, h.small, h.within, h.sized)) small)
    ∙ ap ok (omega arith)

-- The files of a segment as its Close leaves them, whatever has become of other files since then.
pub record Shut (k : Codec) (s : Segment) (d : Disk) (rs : List Record) : Type 0 where
  pub before : Disk
  pub holds : Holds k (record { self = s; disk = before }) rs
  pub sound : (before.node s.index.ino).faulty ≡ false
  pub store_sound : (d.node s.store.ino).faulty ≡ false
  pub store_is : (d.node s.store.ino).bytes ≡ store_bytes (record { self = s; disk = before })
  pub index_is :
      d.node s.index.ino
      ≡ (Index.close (index_env (record { self = s; disk = before }))).1.disk.node s.index.ino

-- newSegment on those files gives a segment that holds the same records.
pub new_segment-Shut :
    (k : Codec) (s : Segment) (d : Disk) (rs : List Record) (c : Config)
    → Shut k s d rs
    → CanReopen (record { self = s; disk = d }) (length rs) c
    → (s' : Segment) × (d' : Disk) × (new_segment s.base_offset c d ≡ (ok s', d'))
      × Holds k (record { self = s'; disk = d' }) rs
unfolding new_segment
new_segment-Shut k s₀ d rs c shut can =
    let e : Env = record { self = s₀; disk = shut.before } in
    let h = shut.holds in
    let base = s₀.base_offset in
    let store_ino = s₀.store.ino in
    let index_ino = s₀.index.ino in
    let n = length rs in
    let opens =
      open_file_found (store_file base) store_ino d can.present can.store_named shut.store_sound in
    let opens' =
      open_file_found (index_file base) index_ino d can.present can.index_named can.index_sound in
    let (s, news, store_ok, store_content, s_ino) =
      Store.Reopen.new_store_lem store_ino d (store_bytes e) shut.store_sound shut.store_is in
    let (i, d', news', index_ok, entries, touches', i_ino) =
      Index.Reopen.new_index-close (index_env e) n c.max_index_bytes d h.index_ok shut.sound
        can.room can.some_room can.small shut.index_is in
    let t : Index.Env = record { self = i; disk = d' } in
    let s_same : d'.node s.ino ≡ d.node s.ino =
      touches'.others s.ino (λ p. h.apart (sym (p ∙ s_ino))) in
    let content_same : content (record { self = s; disk = d' }) ≡ store_bytes e =
      Store.Records.content-kept s d d' s_same ∙ store_content in
    let last =
      next_after_lem base n t index_ok
        (λ j below.
          let (r, found) = get_elem?-some rs j below in
          let was = h.stored j r found in
          (
            was.position,
            entries j j was.position below was.entry,
            omega (arith, was.at.within, h.bounded),
          ))
        h.no_wrap in
    (
      record { store = s; index = i; base_offset = base; next_offset = base + n; config = c },
      d',
      >>=-ok (open_file (store_file base)) _ opens
          ∙ >>=-ok (Store.new_store store_ino) _ news
          ∙ >>=-ok (open_file (index_file base)) _ opens'
          ∙ >>=-ok (Index.new_index index_ino c.max_index_bytes) _ news'
          ∙ ap
              (λ r.
                (lift r >>= λ next. pure (record {
                  store = s;
                  index = i;
                  base_offset = base;
                  next_offset = next;
                  config = c;
                }))
                  d')
              last,
      record {
        store_ok = Store.Records.IsStore-kept s d d' s_same store_ok;
        bounded = subst (λ b. length b < 2 ^ 63) (sym content_same) h.bounded;
        index_ok = index_ok;
        apart = λ p. h.apart (sym s_ino ∙ p ∙ i_ino);
        next = refl;
        no_wrap = h.no_wrap;
        stored = λ j r found.
            let was = h.stored j r found in
            subst (λ b. Stored k b (d'.node i.ino).bytes j r) (sym content_same)
              (record {
                position = was.position;
                encoded = was.encoded;
                entry = entries j j was.position (get_elem?-lt rs j found) was.entry;
                at = was.at;
                decoded = was.decoded;
                nonempty = was.nonempty;
                small = was.small;
              });
      },
    )

-- A sound segment whose index file is not faulty, whose two files have their names in the
-- directory, and a limit for the index below 2^32 that is not 0 and has room for an entry for
-- each record: Close succeeds, and newSegment with that limit, on what Close leaves, gives a
-- segment that holds the same records.
pub new_segment-close :
    (k : Codec) (e : Env) (rs : List Record) (c : Config)
    → Holds k e rs
    → CanReopen e (length rs) c
    → ((close e).0 ≡ ok tt)
      × (s : Segment) × (d : Disk) × (new_segment e.self.base_offset c (close e).1.disk ≡ (ok s, d))
      × Holds k (record { self = s; disk = d }) rs
new_segment-close k e rs c h can =
    let (e₁, closes, bytes, index_same, touches, _) = close_lem k e rs h can.index_sound in
    let (s, d, opens, holds) =
      new_segment-Shut k e.self e₁.disk rs c
        (record {
          before = e.disk;
          holds = h;
          sound = can.index_sound;
          store_sound = touches.faulty_same e.self.store.ino ∙ h.store_ok.healthy.sound;
          store_is = bytes;
          index_is = index_same;
        })
        (record {
          present = touches.present_same ∙ can.present;
          store_named =
              ap (λ l. find_name l (store_file e.self.base_offset)) touches.names_same
              ∙ can.store_named;
          index_named =
              ap (λ l. find_name l (index_file e.self.base_offset)) touches.names_same
              ∙ can.index_named;
          index_sound = touches.faulty_same e.self.index.ino ∙ can.index_sound;
          room = can.room;
          some_room = can.some_room;
          small = can.small;
        }) in
    (
      ap (λ r. r.0) closes,
      s,
      d,
      ap (λ r. new_segment e.self.base_offset c r.1.disk) closes ∙ opens,
      holds,
    )
