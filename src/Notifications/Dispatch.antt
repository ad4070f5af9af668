-- ===== src/Notifications/Dispatch.antt =====
-- What stands behind a POST.
