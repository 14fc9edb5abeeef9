-- ===== src/Common/Granting/Outcome.antt =====
-- What grantServiceStartAccess in common/windows_service.cpp leaves as the service's access list.
use appytizer_app_server.Base.{
  ℕ, ◌≡◌, refl, ◌⊎◌, inl, inr, true, false, List, Option, none, some, Bool-cases, Option-cases,
  arith,
}
use appytizer_app_server.Common.Granting.{GrantAnswers, start_access, grant_service_start_access}

-- The call succeeds, and the service's list is its old one with the access for interactive users merged
-- into it; or it fails, and the list is as it was.
pub grant_service_start_access_lem :
    (g : GrantAnswers) (dacl : Option (List ℕ))
    → let (after, granted) = grant_service_start_access g dacl in
      ((granted ≡ true)
        × ((existing updated : List ℕ) × (dacl ≡ some existing)
            × (g.merged start_access existing ≡ some updated)
            × (after ≡ some updated)))
      ⊎ ((granted ≡ false) × (after ≡ dacl))
unfolding grant_service_start_access
grant_service_start_access_lem g none = inr (ground arith)
grant_service_start_access_lem g (some existing) =
    elim (Option-cases (g.merged start_access existing)) [
      | inl unmerged ↦ inr (ground arith)
      | inr (updated, merged) ↦ elim (Bool-cases (grant_service_start_access g (some existing)).1) [
        | inl granted ↦ inl (granted, (existing, updated, refl, merged, ground arith))
        | inr refused ↦ inr (refused, ground arith)
      ]
    ]
