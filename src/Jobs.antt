-- ===== src/Jobs.antt =====
-- edc_translation/jobs.py: work items and their messages, jobs, job repositories, and the local
-- queue that runs a job at once.
pub mod WorkItem
pub mod Job
pub mod Repository
pub mod Memory
pub mod Files
pub mod LocalQueue
