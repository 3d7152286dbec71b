-- ===== src/Tests.antt =====
-- Runs of the model on small inputs, and the theorems at inputs that meet their conditions.
mod Pools
mod FastPools
mod Schedulers
mod Caches
mod Speculatives
mod Numas
mod AsyncCaches
mod Autotunes
mod Fp8s
mod Devices
mod Matmuls
mod Flashes
mod Gemms
mod Collectives
mod Tuners
mod Digests
