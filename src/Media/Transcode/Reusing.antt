-- ===== src/Media/Transcode/Reusing.antt =====
-- workflows/media/transcode.go: when an existing output is reused.
use media_processor.Prelude.{
  ℕ, ◌*◌, ◌≤◌, ◌<◌, ◌≡◌, ◌↔◌, refl, ◌∙◌, Option, none, some, String, arith,
}
use media_processor.Prelude.Int.{pos, negsuc}
use media_processor.Files.Paths.{FilePath}
use media_processor.Files.Tree.{Tree, Node, file, directory}
use media_processor.Media.Surroundings.{World, stat, Probed, probed, not_media, interrupted}
use media_processor.Media.Transcode.{reuse_found, reuse_existing_output, reuse_node, reuse_probed}

-- An existing file that may stand for the transcode of a source of `source` nanoseconds: a media
-- file whose duration is within 1 % of the source's.
pub record IsReusable (w : World) (t : Tree) (final : FilePath) (source : ℕ) (codec : String)
    (size : ℕ) : Type 0 where
  pub contents : ℕ
  pub existing : ℕ
  pub is_file : stat w final t ≡ some (file contents)
  pub is_media : w.probe_media contents ≡ probed (pos existing) codec
  pub measured : size ≡ w.size contents
  pub source_positive : 0 < source
  pub existing_positive : 0 < existing
  pub not_shorter : 99 * source ≤ 100 * existing
  pub not_longer : 100 * existing ≤ 101 * source

probed-IsReusable :
    (w : World) (t : Tree) (final : FilePath) (source c : ℕ) (found : String) (size : ℕ)
    (p : Probed)
    → stat w final t ≡ some (file c)
    → w.probe_media c ≡ p
    → 0 < source
    → reuse_probed w (pos source) c p ≡ reuse_found found size
    → IsReusable w t final source found size
unfolding reuse_probed
probed-IsReusable w t final source c found size interrupted e k pos_source h = absurd (ground arith)
probed-IsReusable w t final source c found size not_media e k pos_source h = absurd (ground arith)
probed-IsReusable w t final source c found size (probed (negsuc n) codec) e k pos_source h =
    absurd (ground arith)
probed-IsReusable w t final source c found size (probed (pos n) codec) e k pos_source h = record {
  contents = c;
  existing = n;
  is_file = e;
  is_media = k ∙ ground arith;
  measured = ground arith;
  source_positive = pos_source;
  existing_positive = ground arith;
  not_shorter = ground arith;
  not_longer = ground arith;
}

node-IsReusable :
    (w : World) (t : Tree) (final : FilePath) (source : ℕ) (found : String) (size : ℕ)
    (o : Option Node)
    → stat w final t ≡ o
    → 0 < source
    → reuse_node w (pos source) o ≡ reuse_found found size
    → IsReusable w t final source found size
unfolding reuse_node
node-IsReusable w t final source found size none e p h = absurd (ground arith)
node-IsReusable w t final source found size (some directory) e p h = absurd (ground arith)
node-IsReusable w t final source found size (some (file c)) e p h =
    probed-IsReusable w t final source c found size (w.probe_media c) e refl p h

node_of-IsReusable :
    (w : World) (t : Tree) (final : FilePath) (source : ℕ) (found : String) (size : ℕ)
    → IsReusable w t final source found size
    → reuse_node w (pos source) (stat w final t) ≡ reuse_found found size
unfolding reuse_node reuse_probed
node_of-IsReusable w t final source found size r = ground (arith, r.is_file, r.is_media, r.measured)

reuse_positive :
    (w : World) (t : Tree) (final : FilePath) (source : ℕ) (found : String) (size : ℕ)
    → reuse_existing_output w t final (pos source) ≡ reuse_found found size
    → (0 < source) × (reuse_node w (pos source) (stat w final t) ≡ reuse_found found size)
unfolding reuse_existing_output
reuse_positive w t final source found size h = ground arith

-- An existing output is reused exactly if it is a media file whose duration is within 1 % of the
-- source's, both being positive; the codec and the size reported are the existing file's.
reuse_existing_output_iff :
    (w : World) (t : Tree) (final : FilePath) (source : ℕ) (codec : String) (size : ℕ)
    → (reuse_existing_output w t final (pos source) ≡ reuse_found codec size)
      ↔ IsReusable w t final source codec size
unfolding reuse_existing_output
reuse_existing_output_iff w t final source codec size = (
  λ h.
      let (p, k) = reuse_positive w t final source codec size h in
      node-IsReusable w t final source codec size (stat w final t) refl p k,
  λ r. ground (arith, node_of-IsReusable w t final source codec size r, r.source_positive),
)
