-- ===== src/Tests/Segments.antt =====
-- Segments at concrete inputs.
use aphros.Base.{ℕ, ◌+◌, ◌%◌, ◌≤◌, ◌<◌, ◌≡◌, refl, [], ◌∷◌, arith}
use aphros.Result.{ok}
use aphros.Disk.{Disk, find_name}
use aphros.Segment
use aphros.Segment.{Segment, append, read, close, new_segment, nearest_multiple}
use aphros.Segment.Contents.{Holds, Keeps, read-Holds}
use aphros.Segment.Appending.{Fits}
use aphros.Segment.Closing.{CanReopen, new_segment-close}
use aphros.Segment.Multiple.{nearest_multiple_lem}
use aphros.Log.Contents.{at_disk}
use aphros.Tests.Samples.{
  plain, note, note_bytes, wide_limits, full_disk, full_segment, open_disk, open_segment,
}
use aphros.Tests.Facts.{full-Holds, open-Holds}

abbrev open_env : Segment.Env
open_env = at_disk open_segment open_disk

abbrev full_env : Segment.Env
full_env = at_disk full_segment full_disk

read-Holds_example :
    (e' : Segment.Env) × (read plain 0 full_env ≡ (ok (note 0), e'))
    × Holds plain e' (note 0 ∷ [])
    × Keeps full_env e'
read-Holds_example = read-Holds plain full_env (note 0 ∷ []) 0 (note 0) full-Holds refl

full-Fits : Fits plain full_env (note 9) (note_bytes 1)
full-Fits = record {
  encodes = refl;
  nonempty = omega arith;
  small = omega arith;
  store_room = omega arith;
  no_wrap = omega arith;
}

can_reopen : CanReopen open_env 1 wide_limits
unfolding find_name
can_reopen = record {
  present = refl;
  store_named = refl;
  index_named = refl;
  index_sound = refl;
  room = omega arith;
  some_room = omega arith;
  small = omega arith;
}

new_segment-close_example :
    ((close open_env).0 ≡ ok tt)
    × (s : Segment) × (d : Disk) × (new_segment 0 wide_limits (close open_env).1.disk ≡ (ok s, d))
    × Holds plain (at_disk s d) (note 0 ∷ [])
new_segment-close_example =
    new_segment-close plain open_env (note 0 ∷ []) wide_limits open-Holds can_reopen

nearest_multiple_lem_example :
    (m : ℕ) × (nearest_multiple 29 12 ≡ ok m) × (m % 12 ≡ 0) × (m ≤ 29) × (29 < m + 12)
nearest_multiple_lem_example = nearest_multiple_lem 29 12 (omega arith) (omega arith) (omega arith)
