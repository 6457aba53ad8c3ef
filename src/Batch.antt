-- ===== src/Batch.antt =====
-- edc_translation/text_batch.py: translating the text files of a directory, as one job.
pub mod Act
pub mod Job
pub mod Repository
pub mod Encoding
pub mod Files
pub mod Bundle
pub mod Run
pub mod Submit
pub mod Counted
