-- ===== src/LaserClient/Multi/Placed.antt =====
-- Where the answers of the servers end up.
use laser_db.Base.{
  true, ℕ, zero, suc, ◌+◌, ◌≤◌, ◌≡◌, ◌≢◌, refl, sym, ap, subst, ◌∙◌, Bool, some, List, [], ◌∷◌,
  Memᴰ, get_elem?, Outcome, returned, >>=-returned, returned_inj, arith, if◌then◌else◌, nat_beq,
  nat_beq_iff, some_inj,
}
use laser_db.LaserClient.Calls.{CallResp}
use laser_db.LaserClient.Multi.{set_index, GroupResp, put, fill, fill_all}

-- How often an index is in a list, and in the lists of all answers.
abbrev pub occurrences : ℕ → List ℕ → ℕ
occurrences i [] = 0
occurrences i (j ∷ js) = (if nat_beq j i then 1 else 0) + occurrences i js

abbrev pub answered_for : ℕ → List GroupResp → ℕ
answered_for i [] = 0
answered_for i (g ∷ gs) = occurrences i g.idxes + answered_for i gs

module _ {A : Type 0} where
  set_index-at :
      (xs ys : List A) (i : ℕ) (a : A) → set_index xs i a ≡ returned ys → get_elem? ys i ≡ some a
  unfolding set_index
  set_index-at [] ys i a e = cc
  set_index-at (x ∷ xs) ys zero a e = ap (λ l. get_elem? l 0) (sym (returned_inj _ _ e))
  set_index-at (x ∷ xs) ys (suc i) a e =
      let (zs, e', e'') = >>=-returned (set_index xs i a) _ ys e in
      ap (λ l. get_elem? l (suc i)) (sym (returned_inj _ _ e'')) ∙ set_index-at xs zs i a e'

  set_index-other :
      (xs ys : List A) (i j : ℕ) (a : A)
      → set_index xs i a ≡ returned ys
      → i ≢ j
      → get_elem? ys j ≡ get_elem? xs j
  unfolding set_index
  set_index-other [] ys i j a e h = cc
  set_index-other (x ∷ xs) ys zero zero a e h = absurd (h refl)
  set_index-other (x ∷ xs) ys zero (suc j) a e h =
      ap (λ l. get_elem? l (suc j)) (sym (returned_inj _ _ e))
  set_index-other (x ∷ xs) ys (suc i) zero a e h =
      let (zs, e', e'') = >>=-returned (set_index xs i a) _ ys e in
      ap (λ l. get_elem? l 0) (sym (returned_inj _ _ e''))
  set_index-other (x ∷ xs) ys (suc i) (suc j) a e h =
      let (zs, e', e'') = >>=-returned (set_index xs i a) _ ys e in
      ap (λ l. get_elem? l (suc j)) (sym (returned_inj _ _ e''))
      ∙ set_index-other xs zs i j a e' (λ same. h (ap suc same))

occurs_once : (js : List ℕ) (p j : ℕ) → get_elem? js p ≡ some j → 1 ≤ occurrences j js
occurs_once [] p j e = cc
occurs_once (k ∷ js) zero j e = ground (arith, some_inj k j e, nat_beq_iff k j)
occurs_once (k ∷ js) (suc p) j e = ground (arith, occurs_once js p j e)

module _ {A : Type 0} (at : CallResp → ℕ → Outcome (A × Bool)) where
  put-at :
      (index : ℕ) (v : A × Bool) (st st' : ℕ × List A)
      → put at index v st ≡ returned st'
      → get_elem? st'.1 index ≡ some v.0
  unfolding put
  put-at index (a, fails) (nfailed, result) st' e =
      let (ys, e', e'') = >>=-returned (set_index result index a) _ st' e in
      ap (λ q. get_elem? q.1 index) (sym (returned_inj _ _ e'')) ∙ set_index-at result ys index a e'

  put-other :
      (index j : ℕ) (v : A × Bool) (st st' : ℕ × List A)
      → put at index v st ≡ returned st'
      → index ≢ j
      → get_elem? st'.1 j ≡ get_elem? st.1 j
  unfolding put
  put-other index j (a, fails) (nfailed, result) st' e h =
      let (ys, e', e'') = >>=-returned (set_index result index a) _ st' e in
      ap (λ q. get_elem? q.1 j) (sym (returned_inj _ _ e''))
      ∙ set_index-other result ys index j a e' h

  fill-other :
      (r : CallResp) (i : ℕ) (idxes : List ℕ) (st st' : ℕ × List A) (j : ℕ)
      → fill at r i idxes st ≡ returned st'
      → occurrences j idxes ≡ 0
      → get_elem? st'.1 j ≡ get_elem? st.1 j
  unfolding fill
  fill-other r i [] st st' j e free = ap (λ q. get_elem? q.1 j) (sym (returned_inj _ _ e))
  fill-other r i (k ∷ idxes) st st' j e free =
      let (v, _, e') = >>=-returned (at r i) _ st' e in
      let (st1, e1, e2) = >>=-returned (put at k v st) _ st' e' in
      fill-other r (suc i) idxes st1 st' j e2 (ground (arith, free))
      ∙ put-other k j v st st1 e1 (λ same. ground (arith, free, same, nat_beq_iff k j))

  put-counts :
      (index : ℕ) (v : A × Bool) (st st' : ℕ × List A)
      → put at index v st ≡ returned st'
      → (st.0 ≤ st'.0) × (v.1 ≡ true → 1 ≤ st'.0)
  unfolding put
  put-counts index (a, fails) (nfailed, result) st' e =
      let (ys, e', e'') = >>=-returned (set_index result index a) _ st' e in
      let count : (if fails then suc nfailed else nfailed) ≡ st'.0 =
        ap (λ q. q.0) (returned_inj _ _ e'') in
      (ground (arith, count), λ h. ground (arith, count, h))

  fill-counts :
      (r : CallResp) (i : ℕ) (idxes : List ℕ) (st st' : ℕ × List A)
      → fill at r i idxes st ≡ returned st'
      → st.0 ≤ st'.0
  unfolding fill
  fill-counts r i [] st st' e = omega (arith, ap (λ q. q.0) (returned_inj _ _ e))
  fill-counts r i (k ∷ idxes) st st' e =
      let (v, e0, e') = >>=-returned (at r i) _ st' e in
      let (st1, e1, e2) = >>=-returned (put at k v st) _ st' e' in
      omega (arith, fill-counts r (suc i) idxes st1 st' e2, (put-counts k v st st1 e1).0)

  fill_all-counts :
      (gs : List GroupResp) (st st' : ℕ × List A) → fill_all at gs st ≡ returned st' → st.0 ≤ st'.0
  unfolding fill_all
  fill_all-counts [] st st' e = omega (arith, ap (λ q. q.0) (returned_inj _ _ e))
  fill_all-counts (g ∷ gs) st st' e =
      let (st1, e1, e2) = >>=-returned (fill at g.call 0 g.idxes st) _ st' e in
      omega (arith, fill_all-counts gs st1 st' e2, fill-counts g.call 0 g.idxes st st1 e1)

  -- What stands at a place of an answer; if it failed, it is counted.
  abbrev pub Answered : CallResp → ℕ → ℕ × List A → ℕ → Type 0
  Answered r p st j =
      (v : A × Bool) × (at r p ≡ returned v)
      × (get_elem? st.1 j ≡ some v.0)
      × (v.1 ≡ true → 1 ≤ st.0)

  fill-at :
      (r : CallResp) (i : ℕ) (idxes : List ℕ) (st st' : ℕ × List A) (p j : ℕ)
      → fill at r i idxes st ≡ returned st'
      → get_elem? idxes p ≡ some j
      → occurrences j idxes ≤ 1
      → Answered r (i + p) st' j
  unfolding fill
  fill-at r i [] st st' p j e at_p once = cc
  fill-at r i (k ∷ idxes) st st' zero j e at_p once =
      let (v, e0, e') = >>=-returned (at r i) _ st' e in
      let (st1, e1, e2) = >>=-returned (put at k v st) _ st' e' in
      let same = some_inj k j at_p in
      (
        v,
        ap (at r) (omega arith) ∙ e0,
        fill-other r (suc i) idxes st1 st' j e2 (ground (arith, once, same, nat_beq_iff k j))
            ∙ subst (λ x. get_elem? st1.1 x ≡ some v.0) same (put-at k v st st1 e1),
        (λ failed.
            omega
              (arith, (put-counts k v st st1 e1).1 failed, fill-counts r (suc i) idxes st1 st' e2)),
      )
  fill-at r i (k ∷ idxes) st st' (suc p) j e at_p once =
      let (v, e0, e') = >>=-returned (at r i) _ st' e in
      let (st1, e1, e2) = >>=-returned (put at k v st) _ st' e' in
      subst (λ q. Answered r q st' j) (omega arith)
        (fill-at r (suc i) idxes st1 st' p j e2 at_p (omega (arith, once)))

  fill_all-other :
      (gs : List GroupResp) (st st' : ℕ × List A) (j : ℕ)
      → fill_all at gs st ≡ returned st'
      → answered_for j gs ≡ 0
      → get_elem? st'.1 j ≡ get_elem? st.1 j
  unfolding fill_all
  fill_all-other [] st st' j e free = ap (λ q. get_elem? q.1 j) (sym (returned_inj _ _ e))
  fill_all-other (g ∷ gs) st st' j e free =
      let (st1, e1, e2) = >>=-returned (fill at g.call 0 g.idxes st) _ st' e in
      fill_all-other gs st1 st' j e2 (omega (arith, free))
      ∙ fill-other g.call 0 g.idxes st st1 j e1 (omega (arith, free))

  pub fill_all-at :
      (gs : List GroupResp) (st st' : ℕ × List A) (g : GroupResp) (p j : ℕ)
      → fill_all at gs st ≡ returned st'
      → Memᴰ g gs
      → get_elem? g.idxes p ≡ some j
      → answered_for j gs ≤ 1
      → Answered g.call p st' j
  unfolding fill_all
  fill_all-at [] st st' g p j e m at_p once = elim m [ ]
  fill_all-at (g' ∷ gs) st st' g p j e (Memᴰ.head same) at_p once =
      let (st1, e1, e2) = >>=-returned (fill at g'.call 0 g'.idxes st) _ st' e in
      let at_p' = subst (λ x. get_elem? x.idxes p ≡ some j) same at_p in
      let (v, e3, e4, counted) =
        fill-at g'.call 0 g'.idxes st st1 p j e1 at_p' (omega (arith, once)) in
      (
        v,
        subst (λ x. at x.call p ≡ returned v) (sym same) (ap (at g'.call) (omega arith) ∙ e3),
        fill_all-other gs st1 st' j e2 (omega (arith, once, occurs_once g'.idxes p j at_p')) ∙ e4,
        (λ failed. omega (arith, counted failed, fill_all-counts gs st1 st' e2)),
      )
  fill_all-at (g' ∷ gs) st st' g p j e (Memᴰ.tail m) at_p once =
      let (st1, e1, e2) = >>=-returned (fill at g'.call 0 g'.idxes st) _ st' e in
      fill_all-at gs st1 st' g p j e2 m at_p (omega (arith, once))
