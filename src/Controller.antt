-- ===== src/Controller.antt =====
-- The controller service (controller/main.py): it brings Kubernetes and the database to agree, one
-- project after the other.
pub mod World
pub mod Manifests
pub mod Deployments
pub mod Reconcile
mod Tests
