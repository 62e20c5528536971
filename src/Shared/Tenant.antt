-- ===== src/Shared/Tenant.antt =====
-- shared/enums/tenant.ts: the two companies whose products are serviced.
use vz.Common.{Bool, true, false}

pub data Tenant : Type 0 where
  daikin acson : Tenant

abbrev pub same_tenant : Tenant → Tenant → Bool
same_tenant Tenant.daikin Tenant.daikin = true
same_tenant Tenant.acson Tenant.acson = true
same_tenant _ _ = false
