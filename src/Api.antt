-- ===== src/Api.antt =====
-- internal/api/http: the handlers, each a function of its decoded request and of the state that its
-- repositories keep. JSON between bytes and values is left to the libraries, and so is the
-- choice of a route.
pub mod Respond
pub mod Pagination
pub mod Dto
pub mod Rules
pub mod Clusters
pub mod Elements
pub mod Discovery
pub mod Router
pub mod Site
