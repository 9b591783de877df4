-- ===== src/Log/Opening.antt =====
-- NewLog on an empty directory.
use aphros.Base.{ℕ, ◌≡◌, refl, ap, ◌∙◌, true, none, List, [], ◌∷◌, arith}
use mathlib.Core.List.{map}
use aphros.Result.{Result, ◌>>◌, ok, >>=-ok}
use aphros.Api.{Codec}
use aphros.Disk.{Disk, FileName, read_dir}
use aphros.Segment.{Config}
use aphros.Segment.Creating.{CanCreate, new_segment-create}
use aphros.Log.{
  Env, with_defaults, new_log, setup, add_segments, ensure_segment, parsed_offset, on_disk, sort,
}
use aphros.Log.Contents.{IsLog}
use aphros.Log.Growing.{Below}
use aphros.Log.Appending.{add_segment_lem}

pub read_dir_lem :
    (d : Disk) (names : List (FileName × ℕ))
    → d.present ≡ true
    → d.names ≡ names
    → read_dir d ≡ (ok (map (λ e. e.0) names), d)
unfolding read_dir
read_dir_lem d names there same = ground (arith, ap (map (λ (e : FileName × ℕ). e.0)) same)

-- The first step of setup.
pub setup_reads :
    (e : Env) (files : List FileName)
    → read_dir e.disk ≡ (ok files, e.disk)
    → setup e ≡ (add_segments (sort (map parsed_offset files)) >> ensure_segment) e
unfolding setup
setup_reads e files reads =
    >>=-ok (on_disk read_dir) _ (
      ap (λ (x : Result (List FileName) × Disk). (x.0, record { self = e.self; disk = x.1 })) reads)

-- NewLog on an empty directory creates one segment at the initial offset, and the log holds nothing.
pub new_log-create :
    (k : Codec) (c : Config) (d : Disk)
    → d.names ≡ []
    → CanCreate c.initial_offset (with_defaults c) d
    → (e : Env) × (new_log c d ≡ (ok tt, e))
      × IsLog k e c.initial_offset ([] ∷ [])
      × Below e.disk.fresh e.self.segments
unfolding new_log ensure_segment
new_log-create k c d empty can =
    let e₀ : Env = record {
      self = record { config = with_defaults c; segments = []; active = none };
      disk = d;
    } in
    let (s, d', creates, new, made) =
      new_segment-create k c.initial_offset (with_defaults c) d can in
    let adds = add_segment_lem c.initial_offset e₀ creates in
    (
      record {
        self = record { config = with_defaults c; segments = s ∷ []; active = none };
        disk = d';
      },
      setup_reads e₀ [] (read_dir_lem d [] can.present empty) ∙ (unfold add_segments sort in adds),
      record {
        holds = (new, tt);
        chained = (made.base_is, tt);
        apart = (tt, tt, tt);
        attached = refl;
      },
      (
        omega (arith, made.fresh_is, made.store_ino_is),
        omega (arith, made.fresh_is, made.index_ino_is),
        tt,
      ),
    )
