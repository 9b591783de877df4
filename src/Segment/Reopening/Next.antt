-- ===== src/Segment/Reopening/Next.antt =====
-- The next offset of a segment whose files are opened while another segment has them.
use aphros.Base.{ℕ, ◌+◌, ◌-◌, ◌*◌, ◌/◌, ◌^◌, ◌≤◌, ◌<◌, ◌≡◌, sym, ap, ◌∙◌, subst, arith, length, u64}
use aphros.Result.{Result, ok}
use aphros.Disk.{Disk}
use aphros.Index
use aphros.Index.{entry_width, minus_one}
use aphros.Index.Padding.{read_padding, read_last_place}
use aphros.Index.Entries.{HasEntry}
use aphros.Segment.{Segment, Config, next_after}
use aphros.Segment.Reopening.{MadeTwice}

pub next_found :
    (base : ℕ) (res : Result (ℕ × ℕ)) (off pos next : ℕ)
    → res ≡ ok (off, pos)
    → next_after base res ≡ ok next
    → base + off + 1 < 2 ^ 64
    → next ≡ base + off + 1
next_found base res off pos next is last wraps =
    let same : ok (u64 (base + off + 1)) ≡ ok next = ap (next_after base) (sym is) ∙ last in
    let next_is : u64 (base + off + 1) ≡ next = cc in omega (arith, next_is)

-- The index file had room for one more entry: the next offset of the second segment is the one behind
-- the base, whatever the files hold.
pub padded_next :
    {base i j : ℕ} {c : Config} {d d₁ d₂ : Disk} {s t : Segment}
    → MadeTwice base i j c d s d₁ t d₂
    → length (d.node j).bytes + entry_width ≤ c.max_index_bytes / entry_width * entry_width
    → c.max_index_bytes < 2 ^ 32
    → base + 1 < 2 ^ 64
    → t.next_offset ≡ base + 1
padded_next {base} {i} {j} {c} {d} {d₁} {d₂} {s} {t} h room small wraps =
    let cut = (d.node j).bytes in
    let p = c.max_index_bytes - length cut in
    let e : Index.Env = record { self = t.index; disk = d₂ } in
    let next =
      next_found base (Index.read minus_one e).0 0 0 t.next_offset
        (read_padding cut p e (ap (λ l. (d₂.node l).bytes) h.index_is ∙ h.padded)
          (omega (arith, h.size_is)) (omega (arith, h.mapped_is)) (omega (arith, h.size_is))
          (omega (arith, h.size_is)))
        h.last (omega arith) in
    omega (arith, next)

-- It had no room for another entry: the second segment ends where the last entry says.
pub full_next :
    {base i j : ℕ} {c : Config} {d d₁ d₂ : Disk} {s t : Segment} (n pos : ℕ)
    → MadeTwice base i j c d s d₁ t d₂
    → c.max_index_bytes / entry_width ≡ n + 1
    → HasEntry (d₂.node j).bytes n n pos
    → pos < 2 ^ 64
    → c.max_index_bytes < 2 ^ 32
    → base + n + 1 < 2 ^ 64
    → t.next_offset ≡ base + n + 1
full_next {base} {i} {j} {c} {d} {d₁} {d₂} {s} {t} n pos h entries has in_file small wraps =
    let e : Index.Env = record { self = t.index; disk = d₂ } in
    next_found base (Index.read minus_one e).0 n pos t.next_offset
      (read_last_place n pos n e (omega (arith, ap (λ q. q / entry_width) h.size_is))
        (omega (arith, h.size_is, h.mapped_is)) (omega (arith, h.size_is))
        (subst (λ l. HasEntry (d₂.node l).bytes n n pos) (sym h.index_is) has) (omega arith)
        in_file)
      h.last wraps
