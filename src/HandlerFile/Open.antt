-- ===== src/HandlerFile/Open.antt =====
-- What `open_resource` opens, and what it refuses with.
use latypus.Common.{
  ℕ, ◌≡◌, refl, ◌⊎◌, inl, inr, not, Option, none, some, List, [], ◌∷◌, ◌==◌, ltb, length, if_elim,
  if◌then◌else◌, arith,
}
use latypus.HandlerFile.{
  FileStat, Site, error_status, index_path, find_index, Opened, failed, opened, open_path_at,
  open_resource, has_directory_bit, has_regular_bit,
}

-- The statuses with which a request is refused.
abbrev pub IsRefusal : ℕ → Type 0
IsRefusal status = (status ≡ 403) ⊎ ((status ≡ 404) ⊎ ((status ≡ 405) ⊎ (status ≡ 500)))

abbrev Status : ℕ → Option ℕ → Type 0
Status errcode none = errcode ≡ 0
Status errcode (some status) = IsRefusal status

error_status-Status : (errcode : ℕ) → Status errcode (error_status errcode)
unfolding error_status
error_status-Status errcode =
    if_elim (Status errcode) (errcode == 13) (λ _. inl refl)
      λ _.
        if_elim (Status errcode) (errcode == 2) (λ _. inr (inl refl))
          λ _. if_elim (Status errcode) (errcode == 0) (λ h. ground arith) λ _. inr (inr (inr refl))

abbrev Found : Site → Option (List ℕ × FileStat) → Type 0
Found site none = Unit
Found site (some (path, st)) = (site.stat path ≡ st) × (st.errcode ≡ 0)

find_index-Found :
    (site : Site) (path : List ℕ) (indices : List (List ℕ))
    → Found site (find_index site path indices)
unfolding find_index
find_index-Found site path [] = tt
find_index-Found site path (index ∷ rest) =
    if_elim (Found site) ((site.stat (index_path path index)).errcode == 0)
      (λ h. (refl, ground arith)) λ _. find_index-Found site path rest

abbrev pub IsOpened : Site → Opened → Type 0
IsOpened site (failed path status) = IsRefusal status
IsOpened site (opened path st) =
    (site.open_file path ≡ 0) × (site.stat path ≡ st) × (st.errcode ≡ 0)

module _ (site : Site) where
  open_path_at-IsOpened :
      (path : List ℕ) (st : FileStat)
      → site.stat path ≡ st
      → st.errcode ≡ 0
      → IsOpened site (open_path_at site path st)
  unfolding open_path_at
  open_path_at-IsOpened path st e z =
      by_error (error_status (site.open_file path)) (error_status-Status (site.open_file path))
    where
      by_error :
          (o : Option ℕ)
          → Status (site.open_file path) o
          → IsOpened site (elim o [ some status ↦ failed path status | none ↦ opened path st ])
      by_error none h = (h, e, z)
      by_error (some status) h = h

  pub open_resource-IsOpened :
      (location_index : List (List ℕ)) (path : List ℕ)
      → IsOpened site (open_resource site location_index path)
  unfolding open_resource
  open_resource-IsOpened location_index path =
      by_error (error_status (site.stat path).errcode)
        (error_status-Status (site.stat path).errcode)
    where
      indices : List (List ℕ)
      indices = if ltb 0 (length location_index) then location_index else site.index_files

      by_index :
          (o : Option (List ℕ × FileStat))
          → Found site o
          → IsOpened site (elim o [
            | none ↦ failed path 403
            | some (index, found) ↦ open_path_at site index found
          ])
      by_index none h = inl refl
      by_index (some (index, found)) (e, z) = open_path_at-IsOpened index found e z

      by_error :
          (o : Option ℕ)
          → Status (site.stat path).errcode o
          → IsOpened site (elim o [
            | some status ↦ failed path status
            | none ↦
                if has_directory_bit (site.stat path).st_mode
                then (elim (find_index site path indices) [
                  | none ↦ failed path 403
                  | some (index, found) ↦ open_path_at site index found
                ])
                else if not (has_regular_bit (site.stat path).st_mode)
                then failed path 403
                else open_path_at site path (site.stat path)
          ])
      by_error (some status) h = h
      by_error none h =
          if_elim (IsOpened site) (has_directory_bit (site.stat path).st_mode)
            (λ _. by_index (find_index site path indices) (find_index-Found site path indices))
            λ _.
              if_elim (IsOpened site) (not (has_regular_bit (site.stat path).st_mode))
                (λ _. inl refl) λ _. open_path_at-IsOpened path (site.stat path) refl h
