-- ===== src/Server/Auth.antt =====
-- control_station_lite/server/api/auth.py, server/auth/jwt.py and server/auth/dependencies.py: the
-- sessions of users, kept by access tokens and by refresh tokens that are rotated.
pub mod Tokens
pub mod Sessions
pub mod SingleUse
pub mod Plain
