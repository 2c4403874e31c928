-- ===== src/Api.antt =====
-- internal/api: the hub that passes changes of status on to the open pages, and the handlers of the API.
pub mod Hub
pub mod Server
