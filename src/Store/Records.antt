-- ===== src/Store/Records.antt =====
-- Records of a store: what Append writes, Read returns.
use mathlib.Core.List.{append_assoc, append-nil}
use aphros.Base.{
  ℕ, ◌+◌, ◌^◌, ◌≤◌, ◌<◌, ◌≡◌, refl, sym, ap, ◌∙◌, subst, List, [], ◌++◌, arith, length,
  length-append, u64,
}
use aphros.Base.Bytes.{put_be, get_be, length-put_be, get_be-put_be}
use aphros.Base.Slices.{slice, slice-append, slice_middle, slice_last}
use aphros.Result.{ok, >>=-ok}
use aphros.Disk.Frame.{Touches}
use aphros.Disk.{Disk}
use aphros.Store.{
  Store, Env, len_width, max_alloc, file_of, flush, buf_write, file_read_at, read_body, append,
  read,
}
use aphros.Store.Buffer.{content, IsHealthy, Succeeds, flush_lem, buf_write_lem, Adds-trans}

-- A record as the file holds it: its length on eight bytes, and its bytes.
abbrev pub framed : List ℕ → List ℕ
framed p = put_be len_width (length p) ++ p

pub length-framed : (p : List ℕ) → length (framed p) ≡ length p + len_width
length-framed p =
    omega
      (arith, length-append {0} (put_be len_width (length p)) p, length-put_be len_width (length p))

-- The bytes `bs` hold the record `p` at `position`.
pub record HoldsAt (bs : List ℕ) (position : ℕ) (p : List ℕ) : Type 0 where
  pub prefix : slice bs position len_width ≡ put_be len_width (length p)
  pub body : slice bs (position + len_width) (length p) ≡ p
  pub within : position + len_width + length p ≤ length bs

pub HoldsAt-append :
    {bs p : List ℕ} {position : ℕ} (more : List ℕ)
    → HoldsAt bs position p
    → HoldsAt (bs ++ more) position p
HoldsAt-append {bs} {p} {position} more h = record {
  prefix = slice-append bs more position len_width (omega (arith, h.within)) ∙ h.prefix;
  body = slice-append bs more (position + len_width) (length p) h.within ∙ h.body;
  within = omega (arith, h.within, length-append {0} bs more);
}

pub HoldsAt-framed : (bs p : List ℕ) → HoldsAt (bs ++ framed p) (length bs) p
HoldsAt-framed bs p =
    let lengths = length-put_be len_width (length p) in
    record {
      prefix = slice_middle bs (put_be len_width (length p)) p _ _ refl (sym lengths);
      body = rw (← append_assoc bs (put_be len_width (length p)) p) (
          slice_last (bs ++ put_be len_width (length p)) p _ _
            (omega (arith, lengths, length-append {0} bs (put_be len_width (length p)))) refl);
      within = omega (
        arith,
        lengths,
        length-append {0} bs (framed p),
        length-append {0} (put_be len_width (length p)) p,
      );
    }

-- The state of a store between two calls.
pub record IsStore (e : Env) : Type 0 where
  pub healthy : IsHealthy e
  pub sized : e.self.size ≡ length (content e)

-- Append on a store with room for the record: it returns the bytes written and the old size, and
-- the framed record stands behind the old content.
pub append-IsStore :
    (p : List ℕ) (e : Env)
    → IsStore e
    → length (content e) + length p + len_width < 2 ^ 64
    → (e' : Env) × (append p e ≡ (ok (length p + len_width, e.self.size), e'))
      × (content e' ≡ content e ++ framed p)
      × IsStore e'
      × Touches e.self.ino e.disk e'.disk
      × (e'.self.ino ≡ e.self.ino)
unfolding append
append-IsStore p e h room =
    let (e₁, runs₁, adds₁) = buf_write_lem (put_be len_width (length p)) e h.healthy in
    let (e₂, runs₂, adds₂) = buf_write_lem p e₁ adds₁.healthy in
    let adds = Adds-trans adds₁ adds₂ in
    let size' = u64 (e₂.self.size + (length p + len_width)) in
    let e₃ : Env = record e₂ { self = record e₂.self { size = size' } } in
    let grown : length (content e₂) ≡ length (content e) + (length p + len_width) = omega (
      arith,
      ap (length {A = ℕ}) adds.added,
      length-append {0} (content e) (framed p),
      length-append {0} (put_be len_width (length p)) p,
      length-put_be len_width (length p),
    ) in
    (
      e₃,
      >>=-ok (buf_write (put_be len_width (length p))) _ runs₁ ∙ >>=-ok (buf_write p) _ runs₂,
      adds.added,
      record {
        healthy = record {
          not_failed = adds.healthy.not_failed;
          is_open = adds.healthy.is_open;
          sound = adds.healthy.sound;
        };
        sized = omega (arith, grown, h.sized, adds.size_same);
      },
      adds.touches,
      adds.ino_same,
    )

-- A read inside the file.
pub file_read_at_lem :
    (position n : ℕ) (e : Env)
    → IsHealthy e
    → e.self.buf ≡ []
    → position < 2 ^ 63
    → position + n ≤ length (content e)
    → file_read_at position n e ≡ (ok (slice (content e) position n), e)
unfolding file_read_at
file_read_at_lem position n e h empty below within =
    let bytes_all : content e ≡ (file_of e).bytes =
      ap (λ b. (file_of e).bytes ++ b) empty ∙ append-nil (file_of e).bytes in
    let fits : position + n ≤ length (file_of e).bytes =
      omega (arith, ap (length {A = ℕ}) bytes_all) in
    rw bytes_all (ground arith)

-- The length of a record, read back from its eight bytes.
length_read : (p : List ℕ) → length p ≤ max_alloc → get_be (put_be len_width (length p)) ≡ length p
length_read p small = get_be-put_be len_width (length p) (omega arith)

read_body_lem :
    (position n : ℕ) (e : Env)
    → 0 < n
    → n ≤ max_alloc
    → position + len_width < 2 ^ 64
    → read_body position n e ≡ file_read_at (position + len_width) n e
unfolding read_body
read_body_lem position n e pos small below =
    let wrap : u64 (position + len_width) ≡ position + len_width = omega arith in
    rw wrap (ground arith)

-- Read returns the record that the content holds, and leaves the content.
pub read-HoldsAt :
    (position : ℕ) (p : List ℕ) (e : Env)
    → IsHealthy e
    → HoldsAt (content e) position p
    → 0 < length p
    → length p ≤ max_alloc
    → length (content e) < 2 ^ 63
    → Succeeds (read position) p [] e
unfolding read
read-HoldsAt position p e h holds some_bytes small room =
    let (e₁, runs₁, adds, empty) = flush_lem e h in
    let same : content e₁ ≡ content e = adds.added ∙ append-nil (content e) in
    let holds₁ : HoldsAt (content e₁) position p =
      subst (λ bs. HoldsAt bs position p) (sym same) holds in
    let room₁ : length (content e₁) < 2 ^ 63 = subst (λ bs. length bs < 2 ^ 63) (sym same) room in
    let first =
      file_read_at_lem position len_width e₁ adds.healthy empty (omega (arith, holds₁.within))
        (omega (arith, holds₁.within)) in
    let second =
      file_read_at_lem (position + len_width) (length p) e₁ adds.healthy empty
        (omega (arith, holds₁.within)) holds₁.within in
    let size : get_be (slice (content e₁) position len_width) ≡ length p =
      ap get_be holds₁.prefix ∙ length_read p small in
    (
      e₁,
      >>=-ok flush _ runs₁
          ∙ >>=-ok (file_read_at position len_width) _ first
          ∙ ap (λ n. read_body position n e₁) size
          ∙ read_body_lem position (length p) e₁ some_bytes small (omega (arith, holds₁.within))
          ∙ second
          ∙ ap (λ b. (ok b, e₁)) holds₁.body,
      adds,
    )

-- A store looks at no other file.
module _ (s : Store) (d d' : Disk) (same : d'.node s.ino ≡ d.node s.ino) where
  pub content-kept :
      content (record { self = s; disk = d' }) ≡ content (record { self = s; disk = d })
  content-kept = ap (λ f. f.bytes ++ s.buf) same

  pub IsStore-kept :
      IsStore (record { self = s; disk = d }) → IsStore (record { self = s; disk = d' })
  IsStore-kept h = record {
    healthy = record {
      not_failed = h.healthy.not_failed;
      is_open = h.healthy.is_open;
      sound = ap (λ f. f.faulty) same ∙ h.healthy.sound;
    };
    sized = h.sized ∙ ap (length {A = ℕ}) (sym content-kept);
  }
