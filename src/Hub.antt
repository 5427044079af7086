-- ===== src/Hub.antt =====
-- internal/hub: the team report service. Its access rules, its store of reports and its audit log.
pub mod Access
pub mod Authority
pub mod Trail
pub mod Submission
pub mod Reports
pub mod Service
