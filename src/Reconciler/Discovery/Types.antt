-- ===== src/Reconciler/Discovery/Types.antt =====
-- The data of packages/drift/src/discovery.ts.
use hulumi.Prelude.{Option, List, Text}
use hulumi.Reconciler.Types.{
  ResourceIdentity, ResourceOwnershipEvidence, ReconcileTarget, ReconcileScope,
}

-- An output that is not a string is `none`. Absent outputs have no entry.
pub record PulumiStateResource : Type 0 where
  pub urn : Text
  pub type : Text
  pub id : Option Text
  pub outputs : List (Text × Option Text)

pub record PulumiStateExport : Type 0 where
  pub resources : Option (List PulumiStateResource)
  -- The list `deployment.resources`.
  pub deployment : Option (List PulumiStateResource)

pub record CloudInventoryResource : Type 0 where
  pub identity : ResourceIdentity
  pub ownership : Option (List ResourceOwnershipEvidence)

pub record DiscoveryScope : Type 0 where
  pub reconcile_scope : ReconcileScope
  pub urns : Option (List Text)
  pub physical_ids : Option (List Text)
  pub resource_types : Option (List Text)
  pub tags : Option (List (Text × Text))

pub data OutOfScopeReason : Type 0 where
  account_out_of_scope region_out_of_scope prefix_out_of_scope tag_out_of_scope type_out_of_scope
        urn_out_of_scope :
      OutOfScopeReason

pub record DiscoveryDiagnostic : Type 0 where
  pub resource_ref : Text
  pub reason : OutOfScopeReason

pub record DiscoverReconcileTargetsRequest : Type 0 where
  pub scope : DiscoveryScope
  pub pulumi_state : Option PulumiStateExport
  pub cloud_resources : List CloudInventoryResource

pub record DiscoverReconcileTargetsResult : Type 0 where
  pub targets : List ReconcileTarget
  pub diagnostics : List DiscoveryDiagnostic
