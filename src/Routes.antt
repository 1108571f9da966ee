-- ===== src/Routes.antt =====
-- server/routes: the handlers of the HTTP API.
pub mod Handler
pub mod AuthRoutes
pub mod ProfileRoutes
pub mod UserRoutes
