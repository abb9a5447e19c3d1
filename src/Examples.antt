-- ===== src/Examples.antt =====
-- Runs of the development on concrete tables: a database in memory, and requests over it.
mod World
mod AuthWorld
mod AuthRuns
mod HealthRuns
mod EventRuns
mod PipelineRuns
mod JobRuns
mod LimitRuns
mod MessageRuns
