-- ===== src/Provisioning.antt =====
-- identity/provisioning: the filters and the pages of SCIM requests.
pub mod Words
pub mod FilterParser
pub mod Pagination
