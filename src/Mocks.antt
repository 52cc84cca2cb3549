-- ===== src/Mocks.antt =====
-- cmd/mockupstream/main.go and cmd/mockwebhook/main.go: the two servers of a demonstration, and what the
-- gateway makes of their answers. The paths are clean: http.ServeMux redirects any other.
pub mod Upstream
pub mod Receiver
pub mod Faults
pub mod Deliveries
