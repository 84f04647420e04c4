-- ===== src/Cluster/Interleavings/Complete.antt =====
-- dfs of roshi/cluster/DFS.go prints every order of the events.
use mathlib.Core.List.Permᴰ
use mathlib.Core.Logic.{∥∥₁_elim}
use mathlib.Core.List.{Perm, append_assoc, append-nil, perm_middle}
use mathlib.Core.List.Perm
use er_pi_middleware25_artif.Base.{
  ℕ, zero, suc, ◌+◌, ◌≤◌, ◌≡◌, inl, inr, refl, sym, subst, List, [], ◌∷◌, ◌++◌, length,
  length-append, true, false, All, arith, Bool-cases,
}
use er_pi_middleware25_artif.Common.{Bytes, Bytes-discrete}
use er_pi_middleware25_artif.Farm.Sets.{has}
use er_pi_middleware25_artif.Cluster.Score.Merge.{All-permᴰ}
use er_pi_middleware25_artif.Cluster.Interleavings.{join, Search, children, dfs, interleavings}
use er_pi_middleware25_artif.Cluster.Interleavings.Paths.{IsPlain, append-ne, All-append}
use er_pi_middleware25_artif.Cluster.Interleavings.Known.{
  IsPrinted, has-append_left, has-append_last, append_inv, IsDone, IsExplored, IsKnown, Grows,
  IsKnown-Grows, IsKnown-deeper, IsKnown-back, visited_done,
}

module _ (events : List Bytes) where
  -- What a call of dfs for at most `n` remaining events does.
  abbrev Explores : ℕ → (List Bytes → List Bytes → Search → Search) → Type 0
  Explores n explore =
      (path rest : List Bytes) (s : Search)
      → length rest ≤ n
      → Perm (path ++ rest) events
      → All IsPlain path
      → All IsPlain rest
      → All (IsKnown events path s.printed) s.visited
      → IsExplored events path s (explore path rest s)

  record IsWalked (path after : List Bytes) (s t : Search) : Type 0 where
    grows : Grows events s.printed t.printed
    dones : All (λ x. IsDone events t.printed (path ++ x ∷ [])) after
    known : All (IsKnown events path t.printed) t.visited

  pub seen :
      (explore : List Bytes → List Bytes → Search → Search) (path before : List Bytes) (x : Bytes)
      (after : List Bytes) (s : Search)
      → has Bytes-discrete (join (path ++ x ∷ [])) s.visited ≡ true
      → children explore path before (x ∷ after) s
        ≡ children explore path (before ++ x ∷ []) after s
  unfolding children
  seen explore path before x after s h = rw (h) refl

  pub unseen :
      (explore : List Bytes → List Bytes → Search → Search) (path before : List Bytes) (x : Bytes)
      (after : List Bytes) (s : Search)
      → has Bytes-discrete (join (path ++ x ∷ [])) s.visited ≡ false
      → children explore path before (x ∷ after) s
        ≡ children explore path (before ++ x ∷ []) after (
            explore
              (path ++ x ∷ [])
              (before ++ after)
              (record s { visited = join (path ++ x ∷ []) ∷ s.visited }))
  unfolding children
  unseen explore path before x after s h = rw (h) refl

  pub move :
      (path before : List Bytes) (x : Bytes) (after : List Bytes)
      → Perm (path ++ (before ++ x ∷ after)) events
      → Perm ((path ++ x ∷ []) ++ (before ++ after)) events
  move path before x after p =
      rw (append_assoc path (x ∷ []) (before ++ after))
        (Perm.trans (Perm.append_left path (Perm.symm (perm_middle before after))) p)

  children_lem :
      (n : ℕ) (explore : List Bytes → List Bytes → Search → Search)
      → Explores n explore
      → (path before after : List Bytes) (s : Search) → length before + length after ≤ suc n
      → Perm (path ++ (before ++ after)) events
      → All IsPlain path
      → All IsPlain before
      → All IsPlain after
      → All (IsKnown events path s.printed) s.visited
      → IsWalked path after s (children explore path before after s)
  unfolding children
  children_lem n explore f path before [] s l p a b c k = record {
    grows = λ t h. h;
    dones = tt;
    known = k;
  }
  children_lem n explore f path before (x ∷ after) s l p a b c k =
      let plain = All-append path (x ∷ []) a (c.0, tt) in
      let next = λ (t : Search) (m : All (IsKnown events path t.printed) t.visited).
        children_lem n explore f path (before ++ x ∷ []) after t
          (omega (arith, l, length-append before (x ∷ [])))
          (rw (append_assoc before (x ∷ []) after) p) a (All-append before (x ∷ []) b (c.0, tt)) c.1
          m in
      elim (Bool-cases (has Bytes-discrete (join (path ++ x ∷ [])) s.visited)) [
        | inl h ↦
            let w = next s k in
            rw (seen explore path before x after s h) (record {
              grows = w.grows;
              dones = ((λ q r. w.grows _ (visited_done events path x s plain k h q r)), w.dones);
              known = w.known;
            })
        | inr h ↦
            let text = join (path ++ x ∷ []) in
            let s' : Search = record s { visited = text ∷ s.visited } in
            let e =
              f (path ++ x ∷ []) (before ++ after) s' (omega (arith, l, length-append before after))
                (move path before x after p) plain (All-append before after b c.1)
                (
                  (path ++ x ∷ [], refl, plain, append-ne path x, inl ([], sym (append-nil _))),
                  IsKnown-deeper events path s.printed x s.visited k,
                ) in
            let t = explore (path ++ x ∷ []) (before ++ after) s' in
            let w = next t (IsKnown-back events path t.printed x e.done t.visited e.known) in
            rw (unseen explore path before x after s h) (record {
              grows = λ v r. w.grows v (e.grows v r);
              dones = ((λ q r. w.grows _ (e.done q r)), w.dones);
              known = w.known;
            })
      ]

  -- An order of the rest starts with one of its events.
  done_at :
      (printed path : List Bytes) (rest : List Bytes)
      → All (λ x. IsDone events printed (path ++ x ∷ [])) rest
      → (y : Bytes) (q : List Bytes) → Perm (y ∷ q) rest
      → IsDone events printed (path ++ y ∷ [])
  done_at printed path rest a y q p r h =
      ∥∥₁_elim p (hlevel)
        (λ d. (All-permᴰ (λ x. IsDone events printed (path ++ x ∷ [])) (Permᴰ.symm d) a).0 r h)

  dfs-Explores : (n : ℕ) → Explores n (dfs n)
  unfolding dfs
  dfs-Explores n path [] s l p a b k = record {
    grows = λ t h. has-append_left t s.printed (join path ∷ []) h;
    done = λ q r.
        let e = Perm.eq-nil (append_inv path q [] (Perm.trans r (Perm.symm p))) in
        rw (e, append-nil) (has-append_last (join path) s.printed);
    known =
        IsKnown-Grows events path s.printed _
          (λ t h. has-append_left t s.printed (join path ∷ []) h) s.visited k;
  }
  dfs-Explores zero path (x ∷ rest) s l p a b k = absurd (omega arith)
  dfs-Explores (suc n) path (x ∷ rest) s l p a b k =
      let w =
        children_lem n (dfs n) (dfs-Explores n) path [] (x ∷ rest) s (omega (arith, l)) p a tt b
          k in
      record {
        grows = w.grows;
        done = finish (children (dfs n) path [] (x ∷ rest) s).printed w.dones;
        known = w.known;
      }
    where
      finish :
          (printed : List Bytes)
          → All (λ y. IsDone events printed (path ++ y ∷ [])) (x ∷ rest)
          → IsDone events printed path
      finish printed d [] h =
          let e = Perm.nil-eq (append_inv path [] (x ∷ rest) (Perm.trans h (Perm.symm p))) in cc
      finish printed d (y ∷ q) h =
          let all = append_assoc path (y ∷ []) q in
          subst (λ z. IsPrinted printed (join z)) all
            (done_at printed path (x ∷ rest) d y q
              (append_inv path (y ∷ q) (x ∷ rest) (Perm.trans h (Perm.symm p))) q (rw (all) h))

  -- Every order is printed.
  pub interleavings_complete :
      All IsPlain events
      → (order : List Bytes) → Perm order events
      → has Bytes-discrete (join order) (interleavings events) ≡ true
  unfolding interleavings
  interleavings_complete plain order p =
      (dfs-Explores (length events) [] events (record { visited = []; printed = [] }) (omega arith)
          (Perm.refl events) tt plain tt).done
        order p
