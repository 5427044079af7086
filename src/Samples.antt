-- ===== src/Samples.antt =====
-- Runs of the models on concrete inputs.
mod Jobs
mod Reduction
mod Analyses
mod Members
mod Outcomes
mod Cached
mod Workers
mod Recovered
mod Trails
mod Shelves
mod Tenants
mod Upgrade
