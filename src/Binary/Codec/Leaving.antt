-- ===== src/Binary/Codec/Leaving.antt =====
-- A decoder that stops before the end of what was written: the rules by which a message that leaves
-- bytes unread is put together.
use stratumv.Prelude.{ℕ, ◌≡◌, refl, none, List, ◌++◌, append_assoc}
use stratumv.Binary.Outcome.{returns, view}
use stratumv.Binary.Builder
use stratumv.Binary.Builder.{Builder, bytes}
use stratumv.Binary.Builder.Laws.{Writes, Writes-then, holding}
use stratumv.Binary.Reader.{Read, ◌>>=◌}
use stratumv.Binary.Reader.ReadsBack.{Reads, Reads-bind}
use stratumv.Binary.Codec.{run, run-Reads_front, Carries}

-- `op` writes bytes from the front of which `m` reads `v`, and leaves the others.
pub record Leaves {ℓ} {A : Type ℓ} (op : Builder → Builder) (m : Read A) (v : A) : Type ℓ where
  pub taken : List ℕ
  pub left : List ℕ
  pub writes : Writes op (holding (taken ++ left))
  pub reads : Reads m taken v

module _ {ℓ κ} {A : Type ℓ} {B : Type κ} where
  pub Leaves-then :
      (k : A → Read B) {p q : Builder → Builder} {m : Read A} {v : A} {w : B}
      → Carries p m v
      → Leaves q (k v) w
      → Leaves (λ b. q (p b)) (m >>= k) w
  Leaves-then k c d = record {
    taken = c.wire ++ d.taken;
    left = d.left;
    writes = rw (append_assoc c.wire d.taken d.left) (Writes-then c.writes d.writes);
    reads = Reads-bind k c.reads d.reads;
  }

pub run-Leaves {ℓ} :
    {A : Type ℓ} {op : Builder → Builder} {m : Read A} {v : A}
    → Leaves op m v
    → ((bytes (op Builder.new)).1 ≡ none)
      × (run m (view (bytes (op Builder.new)).0) ≡ returns (v, none))
unfolding bytes
run-Leaves {op} c = rw (c.writes.at Builder.new) (refl, run-Reads_front c.left c.reads)
