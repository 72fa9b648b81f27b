-- ===== src/Radio/Common.antt =====
-- The functions of common/utils/rf/rf_common.c that the programs call, with `g_rf_mutex`. The
-- structs and the results are behind pointers that are not NULL.
pub mod Status
pub mod Requests
