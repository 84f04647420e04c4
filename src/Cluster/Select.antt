-- ===== src/Cluster/Select.antt =====
-- SelectOffset, SelectRange and selectCommon of roshi/cluster/cluster.go: the elements of all
-- instances, with error elements for the keys of an instance that fails.
pub mod Complete
pub mod Covers
use mathlib.Core.List.{Memᴰ, filter}
use er_pi_middleware25_artif.Base.{
  ℕ, ◌≡◌, refl, sym, ap, ◌∙◌, subst, arith, List, [], ◌∷◌, ◌++◌, Option, none, some, map, lookup,
  insert, lookup-insert, ℕ_discrete, ite, if_pos, if_neg, ℤ,
}
use er_pi_middleware25_artif.Common.{Bytes, Bytes-discrete, KeyScoreMember, Cursor}
use er_pi_middleware25_artif.Cluster.Buckets.{bucket, bucketize, routed, bucket-bucketize}
use er_pi_middleware25_artif.Cluster.Conn.{Error, Result, ok, err, Conn, M}
use er_pi_middleware25_artif.Cluster.Pipeline.{ResultMap, pipeline_range}
use er_pi_middleware25_artif.Cluster.Range.{pipeline_range_by_score}

pub record Element : Type 0 where
  pub key : Bytes
  pub members : List KeyScoreMember
  pub error : Option Error

unfoldable pub error_elements : List Bytes → Error → List Element
error_elements [] e = []
error_elements (key ∷ keys) e =
    record { key = key; members = []; error = some e } ∷ error_elements keys e

unfoldable pub success_elements : ResultMap → List Element
success_elements [] = []
success_elements ((key, members) ∷ m) =
    record { key = key; members = members; error = none } ∷ success_elements m

-- WithIndex around the select of one bucket, and the elements that it makes of its outcome.
unfoldable pub bucket_elements :
    Result Conn → (List Bytes → M ResultMap) → List Bytes → List Element
unfolding error_elements success_elements
bucket_elements (err e) select keys = error_elements keys e
bucket_elements (ok c) select keys = elim (select keys c).0 [
  | ok m ↦ success_elements m
  | err e ↦ error_elements keys e
]

abbrev pub all_elements :
    (ℕ → Result Conn) → (List Bytes → M ResultMap) → List (ℕ × List Bytes) → List Element
all_elements conns select [] = []
all_elements conns select ((i, keys) ∷ m) =
    bucket_elements (conns i) select keys ++ all_elements conns select m

module _ (index : Bytes → ℕ) (conns : ℕ → Result Conn) where
  unfoldable pub select_common : (List Bytes → M ResultMap) → List Bytes → List Element
  select_common select keys = all_elements conns select (bucketize index keys)

  unfoldable pub select_offset : ℤ → ℤ → List Bytes → List Element
  unfolding select_common
  select_offset offset limit keys = select_common (pipeline_range offset limit) keys

  unfoldable pub select_range : Cursor → Cursor → ℤ → List Bytes → List Element
  unfolding select_common
  select_range start stop limit keys = select_common (pipeline_range_by_score start stop limit) keys
