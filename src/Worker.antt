-- ===== src/Worker.antt =====
-- edc_translation/worker.py: the worker that takes items from a queue and translates them.
pub mod Results
pub mod Process
pub mod Local
pub mod Loop
