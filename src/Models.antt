-- ===== src/Models.antt =====
-- edc_translation/provenance.py and edc_translation/model_registry.py: which model bundles are fit for
-- use.
pub mod Provenance
pub mod Registry
