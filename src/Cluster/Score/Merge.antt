-- ===== src/Cluster/Score/Merge.antt =====
-- What the gather loop of Score makes of responses that agree on a key-member.

use mathlib.Core.List.{Permᴰ, Memᴰ}
use er_pi_middleware25_artif.Base.{
  ◌≡◌, refl, List, [], ◌∷◌, Option, none, some, arith, All, lookup, insert, lookup-insert,
  UniqueKeys, ◌⊎◌, inl, inr, sym, ap, ◌∙◌, subst,
}
use er_pi_middleware25_artif.Common.{KeyMember, KeyMember-discrete}
use er_pi_middleware25_artif.Cluster.Conn.{Result, ok, err}
use er_pi_middleware25_artif.Cluster.Pipeline.{Presence, PresenceMap}
use er_pi_middleware25_artif.Cluster.Score.{merge, gather_presences, reported}

pub or_else : Option Presence → Option Presence → Option Presence
or_else none o = o
or_else (some p) o = some p

pub lookup-merge :
    (km : KeyMember) (m r : PresenceMap)
    → UniqueKeys KeyMember-discrete r
    → lookup KeyMember-discrete km (merge m r)
      ≡ or_else (lookup KeyMember-discrete km r) (lookup KeyMember-discrete km m)
unfolding merge lookup or_else
lookup-merge km m [] u = refl
lookup-merge km m ((j, p) ∷ r) u = ground (
  arith,
  lookup-merge km (insert KeyMember-discrete j p m) r u.1,
  lookup-insert KeyMember-discrete j km p m,
)

abbrev pub IsUnique : Result PresenceMap → Type 0
IsUnique (err e) = Unit
IsUnique (ok m) = UniqueKeys KeyMember-discrete m

module _ (km : KeyMember) (v : Option Presence) where
  -- A response is silent about the key-member, or says `v`.
  abbrev pub Agrees : Result PresenceMap → Type 0
  Agrees r = IsUnique r × ((reported km r ≡ none) ⊎ (reported km r ≡ v))

  pub gather_presences_keep :
      (m : PresenceMap) (rs : List (Result PresenceMap))
      → All Agrees rs
      → lookup KeyMember-discrete km m ≡ v
      → lookup KeyMember-discrete km (gather_presences m rs) ≡ v
  unfolding gather_presences or_else
  gather_presences_keep m [] a h = h
  gather_presences_keep m (err e ∷ rs) a h = gather_presences_keep m rs a.1 h
  gather_presences_keep m (ok r ∷ rs) a h =
      gather_presences_keep (merge m r) rs a.1 (ground (arith, lookup-merge km m r a.0.0))

  pub after :
      (m : PresenceMap) (s : Result PresenceMap) (rs : List (Result PresenceMap))
      → (All Agrees rs × Agrees s)
      → lookup KeyMember-discrete km m ≡ none
      → reported km s ≡ v
      → lookup KeyMember-discrete km (gather_presences m (s ∷ rs)) ≡ v
  unfolding gather_presences or_else
  after m (err e) rs a h k = gather_presences_keep m rs a.0 (ground arith)
  after m (ok r) rs a h k =
      gather_presences_keep (merge m r) rs a.0 (ground (arith, lookup-merge km m r a.1.0))

  -- One response says `v`, and the others too or nothing: then the gathered map says `v`.
  pub gather_presences_lem :
      (m : PresenceMap) (r : Result PresenceMap) (rs : List (Result PresenceMap))
      → All Agrees rs
      → lookup KeyMember-discrete km m ≡ none
      → Memᴰ r rs
      → reported km r ≡ v
      → lookup KeyMember-discrete km (gather_presences m rs) ≡ v
  unfolding gather_presences or_else
  gather_presences_lem m r [] a h i e = elim i [ ]
  gather_presences_lem m r (s ∷ rs) a h (Memᴰ.head p) e =
      after m s rs (a.1, a.0) h (ap (reported km) (sym p) ∙ e)
  gather_presences_lem m r (err x ∷ rs) a h (Memᴰ.tail i) e = gather_presences_lem m r rs a.1 h i e
  gather_presences_lem m r (ok n ∷ rs) a h (Memᴰ.tail i) e = elim a.0.1 [
    | inl q ↦
        gather_presences_lem (merge m n) r rs a.1 (lookup-merge km m n a.0.0 ∙ rw (q, or_else) h) i
          e
    | inr q ↦ after m (ok n) rs (a.1, a.0) h q
  ]

pub All-permᴰ {ℓ κ} :
    {A : Type ℓ} (P : A → Type κ) {xs ys : List A} → Permᴰ xs ys → All P xs → All P ys
All-permᴰ P Permᴰ.nil a = a
All-permᴰ P (Permᴰ.cons p q) a = (subst P p a.0, All-permᴰ P q a.1)
All-permᴰ P (Permᴰ.swap p q) a = (subst P q a.1.0, (subst P p a.0, a.1.1))
All-permᴰ P (Permᴰ.trans p q) a = All-permᴰ P q (All-permᴰ P p a)

pub Memᴰ-permᴰ {ℓ} : {A : Type ℓ} {x : A} {xs ys : List A} → Permᴰ xs ys → Memᴰ x xs → Memᴰ x ys
Memᴰ-permᴰ Permᴰ.nil i = i
Memᴰ-permᴰ (Permᴰ.cons p q) (Memᴰ.head e) = Memᴰ.head (e ∙ p)
Memᴰ-permᴰ (Permᴰ.cons p q) (Memᴰ.tail i) = Memᴰ.tail (Memᴰ-permᴰ q i)
Memᴰ-permᴰ (Permᴰ.swap p q) (Memᴰ.head e) = Memᴰ.tail (Memᴰ.head (e ∙ p))
Memᴰ-permᴰ (Permᴰ.swap p q) (Memᴰ.tail (Memᴰ.head e)) = Memᴰ.head (e ∙ q)
Memᴰ-permᴰ (Permᴰ.swap p q) (Memᴰ.tail (Memᴰ.tail i)) = Memᴰ.tail (Memᴰ.tail i)
Memᴰ-permᴰ (Permᴰ.trans p q) i = Memᴰ-permᴰ q (Memᴰ-permᴰ p i)
